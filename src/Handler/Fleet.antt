-- ===== src/Handler/Fleet.antt =====
-- Nodes that answer one another's checks by the handler of Check: what is assumed of a peer in
-- Check/Sound holds of them.
use access_controller.Prelude.{ℕ, zero, suc, ◌≡◌, sym, subst, Bool, Option, none, some, arith}
use access_controller.Text.{Text}
use access_controller.Status.{unknown, status, config_error, context_done}
use access_controller.Context.{background}
use access_controller.Tuple.{
  Subject, subject_id, subject_set, subject_string, subject_to_proto, subject_from_proto,
}
use access_controller.Check.{Node, check}
use access_controller.Check.Types.{Query, Outcome, ok, err}
use access_controller.Check.Proxy.{Reply, answered, refused, hangs}
use access_controller.Check.Semantics.{Granted}
use access_controller.Check.Rules.{Decides}
use access_controller.Check.Pins.{rules_at, config_at, time_at}
use access_controller.Check.Sound.{ArePeersRight, check-Decides}
use access_controller.Handler.CheckRpc.{check_rpc, forwarded, IsReadAs, check_rpc-Answers}

-- A response, or the status of an error; a call of a Check that does not end hangs.
abbrev pub reply_of : Option Outcome → Reply
reply_of (some (ok b)) = answered b
reply_of (some (err (status code message))) = refused code
reply_of (some (err (config_error t message))) = refused unknown
reply_of (some (err context_done)) = refused unknown
reply_of none = hangs

-- The node `name` among the nodes, whose calls run the peers' handlers, `depth` nodes deep. The
-- values of a context are not sent with a request, so a peer starts from an empty one.
module _ (nodes : Text → Node) (fuel : ℕ) where
  unfoldable pub fleet_node : ℕ → Text → Node
  fleet_node zero name = record (nodes name) {
    peers = record (nodes name).peers { call = λ i node ctx q. refused unknown };
  }
  fleet_node (suc depth) name = record (nodes name) {
    peers = record (nodes name).peers {
      call = λ i node ctx q.
          reply_of (check_rpc (fleet_node depth node) fuel background (forwarded q));
    };
  }

-- The nodes read the same tuples and would evaluate each request by the same rules.
pub record AreAlike (nodes : Text → Node) : Type 0 where
  pub same_tuples : (a b : Text) → (nodes a).tuples ≡ (nodes b).tuples
  pub same_rules : (a b : Text) → rules_at (nodes a) background ≡ rules_at (nodes b) background

-- The Boolean is right for the query on the node.
abbrev IsRight : (Text → Node) → Text → Query → Bool → Type 0
IsRight nodes name q b =
    Decides (Granted (nodes name).tuples (rules_at (nodes name) background) q) (some (ok b))

IsRight-everywhere :
    (nodes : Text → Node) (a b : Text) (q : Query) (v : Bool)
    → AreAlike nodes
    → IsRight nodes a q v
    → IsRight nodes b q v
IsRight-everywhere nodes a b q v alike h =
    subst (λ r. Decides (Granted (nodes b).tuples r q) (some (ok v))) (alike.same_rules a b)
      (subst (λ t. Decides (Granted t (rules_at (nodes a) background) q) (some (ok v)))
        (alike.same_tuples a b) h)

reply_of-answered : (o : Option Outcome) (b : Bool) → reply_of o ≡ answered b → o ≡ some (ok b)
reply_of-answered (some (ok c)) b h = ground arith
reply_of-answered (some (err (status code message))) b h = cc
reply_of-answered (some (err (config_error t message))) b h = cc
reply_of-answered (some (err context_done)) b h = cc
reply_of-answered none b h = cc

forwarded_user :
    (q p : Query) (s : Subject)
    → subject_from_proto (some (subject_to_proto (subject_id q.user))) ≡ some s
    → p.user ≡ subject_string s
    → p.user ≡ q.user
unfolding subject_from_proto subject_to_proto subject_string
forwarded_user q p (subject_id id) e u = cc
forwarded_user q p (subject_set set) e u = cc

same_query :
    (p q : Query)
    → p.namespace ≡ q.namespace
    → p.object ≡ q.object
    → p.relation ≡ q.relation
    → p.user ≡ q.user
    → p ≡ q
same_query p q n o r u = cc

read_forwarded : (q p : Query) → IsReadAs (forwarded q) p → p ≡ q
unfolding forwarded
read_forwarded q p r =
    let (n, o, k) = r.same in
    let (s, e, u) = r.subject in same_query p q (sym n) (sym o) (sym k) (forwarded_user q p s e u)

fleet_node-IsRight :
    (nodes : Text → Node) (fuel depth : ℕ) (name : Text) (q : Query) (o : Option Outcome)
    → Decides
        (Granted
          (fleet_node nodes fuel depth name).tuples
          (rules_at (fleet_node nodes fuel depth name) background)
          q)
        o
    → Decides (Granted (nodes name).tuples (rules_at (nodes name) background) q) o
unfolding fleet_node rules_at config_at time_at
fleet_node-IsRight nodes fuel zero name q o h = h
fleet_node-IsRight nodes fuel (suc depth) name q o h = h

peer-IsRight :
    (nodes : Text → Node) (fuel depth : ℕ) (node : Text) (q : Query) (b : Bool)
    → ArePeersRight (fleet_node nodes fuel depth node) background
    → check_rpc (fleet_node nodes fuel depth node) fuel background (forwarded q) ≡ some (ok b)
    → IsRight nodes node q b
peer-IsRight nodes fuel depth node q b right h =
    let (p, r, d) =
      check_rpc-Answers (fleet_node nodes fuel depth node) fuel background (forwarded q) b right
        h in
    fleet_node-IsRight nodes fuel depth node q (some (ok b)) (
      subst
        (λ x.
          Decides
            (Granted (fleet_node nodes fuel depth node).tuples
              (rules_at (fleet_node nodes fuel depth node) background) x)
            (some (ok b)))
        (read_forwarded q p r) d)

fleet_node-ArePeersRight :
    (nodes : Text → Node) (fuel depth : ℕ) (name : Text)
    → AreAlike nodes
    → ArePeersRight (fleet_node nodes fuel depth name) background
unfolding fleet_node rules_at config_at time_at
fleet_node-ArePeersRight nodes fuel zero name alike = record { right = λ i node ctx q b h. cc }
fleet_node-ArePeersRight nodes fuel (suc depth) name alike = record {
  right = λ i node ctx q b h. IsRight-everywhere nodes node name q b alike (
      peer-IsRight nodes fuel depth node q b (fleet_node-ArePeersRight nodes fuel depth node alike)
        (reply_of-answered
          (check_rpc (fleet_node nodes fuel depth node) fuel background (forwarded q)) b h));
}

-- In a cluster whose nodes read the same tuples and would evaluate by the same rules, and whose
-- peers answer forwarded checks by their own Check handlers, themselves forwarding to any depth, a
-- Boolean that `check` returns on any node is right: nothing is assumed of the ring, the router,
-- failed calls, or the order in which the children of a rule end.
pub fleet_node-Decides :
    (nodes : Text → Node) (fuel depth : ℕ) (name : Text) (q : Query)
    → AreAlike nodes
    → Decides
        (Granted (nodes name).tuples (rules_at (nodes name) background) q)
        (check (fleet_node nodes fuel depth name) fuel background q)
fleet_node-Decides nodes fuel depth name q alike = fleet_node-IsRight nodes fuel depth name q _ (
    check-Decides (fleet_node nodes fuel depth name) fuel background q
      (fleet_node-ArePeersRight nodes fuel depth name alike))
