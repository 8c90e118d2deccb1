-- ===== src/Check.antt =====
-- AccessController.check, checkRewrite and checkLeaf (internal/access-controller.go): whether a user
-- has a relation to an object.
--
-- The recursion of `check` follows the stored tuples and need not end, so it runs on fuel, and
-- `none` says that the call is still running: the fuel ran out, or a call of a peer hangs. While a
-- request is evaluated the node's store of configs and its tuples are fixed; what the hash ring (its
-- checksum included), the router and the peers answer may change from one look to the next.
pub mod Types
pub mod Join
pub mod Threads
pub mod Proxy
pub mod Semantics
pub mod Rules
pub mod Rewrites
pub mod Pins
pub mod Sound
pub mod Total
pub mod Ends
pub mod Cycle
use access_controller.Prelude.{
  ℕ, zero, suc, ◌≡◌, Bool, true, false, not, Option, none, some, List, [], ◌∷◌, ◌==◌, if◌then◌else◌,
  In,
}
use access_controller.Map.{Map}
use access_controller.Text.{Text, bytes, text_eq}
use access_controller.Time.{Time}
use access_controller.Status.{
  Failure, internal_status, to_status, namespace_doesnt_exist, namespace_undefined,
}
use access_controller.Config.{
  NamespaceConfig, Rewrite, union, intersection, unset, Child, this, unset_child,
  computed_subjectset, tuple_to_subjectset, nested, Children, nil, cons, rewrite_from_config,
}
use access_controller.Tuple.{Object, SubjectSet}
use access_controller.Snapshots.{ConfigStore, get_snapshot}
use access_controller.Choose.{ConfigSnapshot, choose}
use access_controller.Context.{Context, checksum_of, with_timestamp, timestamp_of, with_checksum}
use Types.{Query, Outcome, ok, err}
use Join.{Scheduler, join}
use Proxy.{Peers, Proxied, returned, evaluate, waiting, proxy}

-- The part of RelationTupleStore that a check reads; `none` is an error.
pub record TupleReader : Type 0 where
  pub row_count : Object → List Text → Text → Option ℕ
  pub subject_sets : Object → List Text → Option (List SubjectSet)

pub record Node : Type 0 where
  pub server_id : Text
  pub configs : ConfigStore
  pub tuples : TupleReader
  -- Hashring.Checksum at the i-th look, in the evaluation of a query under a context
  pub ring_checksum : ℕ → Context → Query → ℕ
  pub peers : Peers
  pub scheduler : Scheduler

abbrev pub object_of : Query → Object
object_of q = record { namespace = q.namespace; id = q.object }

-- a.check(ctx, subject.Namespace, subject.Object, relation, user)
abbrev pub subject_query : SubjectSet → Text → Text → Query
subject_query s relation user = record {
  namespace = s.namespace;
  object = s.object;
  relation = relation;
  user = user;
}

abbrev pub Call : Type 0
Call = Query → Option Outcome

-- after one subject: stop at an error and at a permission, else go on
abbrev pub or_next : Option Outcome → Option Outcome → Option Outcome
or_next none rest = none
or_next (some (err e)) rest = some (err e)
or_next (some (ok true)) rest = some (ok true)
or_next (some (ok false)) rest = rest

-- the loops over subjects in checkLeaf
unfoldable pub check_subjects : Call → (SubjectSet → Query) → List SubjectSet → Option Outcome
check_subjects call query [] = some (ok false)
check_subjects call query (s ∷ ss) =
    let rest = check_subjects call query ss in or_next (call (query s)) rest

check_all : Call → (SubjectSet → Query) → Option (List SubjectSet) → Option Outcome
unfolding check_subjects
check_all call query none = some (err internal_status)
check_all call query (some ss) = check_subjects call query ss

-- the case `_this`, once the rows are counted
check_direct : Call → TupleReader → Query → Option ℕ → Option Outcome
unfolding check_all
check_direct call tuples q none = some (err internal_status)
check_direct call tuples q (some (suc n)) = some (ok true)
check_direct call tuples q (some zero) =
    check_all call (λ s. subject_query s s.relation q.user)
      (tuples.subject_sets (object_of q) (q.relation ∷ []))

abbrev pub ellipsis : Text
ellipsis = bytes "..."

-- `GetTupleset().GetRelation()` of a missing message is empty
abbrev pub tupleset_relation : Option Text → Text
tupleset_relation none = []
tupleset_relation (some r) = r

-- the relation that is checked of a subject found through a tupleset
unfoldable pub followed : Text → SubjectSet → Text
followed computed s = if text_eq s.relation ellipsis then computed else s.relation

-- checkLeaf
unfoldable pub check_leaf : Call → TupleReader → Child → Query → Option Outcome
unfolding check_direct followed
check_leaf call tuples this q =
    check_direct call tuples q (tuples.row_count (object_of q) (q.relation ∷ []) q.user)
check_leaf call tuples (computed_subjectset relation) q = call (record q { relation = relation })
check_leaf call tuples (tuple_to_subjectset tupleset computed) q =
    check_all call (λ s. subject_query s (followed computed s) q.user)
      (tuples.subject_sets (object_of q) (tupleset_relation tupleset ∷ []))
check_leaf call tuples _ q = some (ok false)

-- checkRewrite: the children run concurrently, and the first message that reaches the `select` is
-- the result; `join` is that protocol (Check/Join)
unfoldable mutual
  pub check_rewrite : Scheduler → Call → TupleReader → Rewrite → Query → Option Outcome
  check_rewrite sch call tuples (union children) q =
      join true (sch.arrange q (union children) (check_children sch call tuples children q))
  check_rewrite sch call tuples (intersection children) q =
      join false (sch.arrange q (intersection children) (check_children sch call tuples children q))
  check_rewrite sch call tuples unset q = some (ok false)

  pub check_children : Scheduler → Call → TupleReader → Children → Query → List (Option Outcome)
  check_children sch call tuples nil q = []
  check_children sch call tuples (cons c cs) q =
      check_child sch call tuples c q ∷ check_children sch call tuples cs q

  pub check_child : Scheduler → Call → TupleReader → Child → Query → Option Outcome
  check_child sch call tuples (nested r) q = check_rewrite sch call tuples r q
  check_child sch call tuples this q = check_leaf call tuples this q
  check_child sch call tuples (computed_subjectset r) q =
      check_leaf call tuples (computed_subjectset r) q
  check_child sch call tuples (tuple_to_subjectset t c) q =
      check_leaf call tuples (tuple_to_subjectset t c) q
  check_child sch call tuples unset_child q = check_leaf call tuples unset_child q

-- "'%s' namespace is undefined. …"
abbrev pub undefined_namespace : Text → Failure
undefined_namespace namespace = to_status namespace_doesnt_exist (namespace_undefined namespace)

-- a peer's checksum, if there is one, differs from this node's
unfoldable pub checksum_differs : Node → Context → Query → Bool
checksum_differs n ctx q = elim (checksum_of ctx) [
  | none ↦ false
  | some sum ↦ not (n.ring_checksum 0 ctx q == sum)
]

-- the timestamp at which the namespace is evaluated, and the context that carries it on
pin_chosen : Context → Text → Option ConfigSnapshot → Option (Time × Context)
pin_chosen ctx namespace none = none
pin_chosen ctx namespace (some s) = some (s.timestamp, with_timestamp ctx namespace s.timestamp)

pin_at : Node → Context → Text → Option Time → Option (Time × Context)
unfolding pin_chosen
pin_at n ctx namespace (some ts) = some (ts, ctx)
pin_at n ctx namespace none = pin_chosen ctx namespace (choose n.configs namespace)

unfoldable pub pin : Node → Context → Text → Option (Time × Context)
unfolding pin_at
pin n ctx namespace = pin_at n ctx namespace (timestamp_of ctx namespace)

-- what follows the attempt: `check` returns, or evaluates here, or still runs
abbrev pub after_proxy : Proxied → Option Outcome → Option Outcome
after_proxy (returned o) here = some o
after_proxy evaluate here = here
after_proxy waiting here = none

-- from the rewrite rule on: ask the owner of the object, or evaluate here
evaluate_rule : Node → (Context → Call) → Context → Query → Option Rewrite → Option Outcome
evaluate_rule n call ctx q none = some (ok false)
evaluate_rule n call ctx q (some rule) =
    if text_eq (n.peers.locate 0 q.object) n.server_id
    then check_rewrite n.scheduler (call ctx) n.tuples rule q
    else (let ctx' = with_checksum ctx (n.ring_checksum 1 ctx q) in
        let here = check_rewrite n.scheduler (call ctx') n.tuples rule q in
        after_proxy (proxy n.peers n.server_id ctx' q) here)

evaluate_config :
    Node → (Context → Call) → Context → Query → Option NamespaceConfig → Option Outcome
unfolding evaluate_rule
evaluate_config n call ctx q none = some (err (undefined_namespace q.namespace))
evaluate_config n call ctx q (some cfg) =
    evaluate_rule n call ctx q (rewrite_from_config q.relation (some cfg))

evaluate_pinned : Node → (Context → Call) → Query → Option (Time × Context) → Option Outcome
unfolding evaluate_config
evaluate_pinned n call q none = some (err (undefined_namespace q.namespace))
evaluate_pinned n call q (some (ts, ctx)) =
    evaluate_config n call ctx q (get_snapshot n.configs n.server_id q.namespace ts)

-- one level of `check`, over the calls that it makes
unfoldable pub check_step : Node → (Context → Call) → Context → Query → Option Outcome
unfolding evaluate_pinned
check_step n call ctx q =
    if checksum_differs n ctx q
    then some (err internal_status)
    else evaluate_pinned n call q (pin n ctx q.namespace)

-- check
unfoldable pub check : Node → ℕ → Context → Query → Option Outcome
check n zero ctx q = none
check n (suc fuel) ctx q = check_step n (check n fuel) ctx q
