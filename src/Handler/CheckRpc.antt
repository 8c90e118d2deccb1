-- ===== src/Handler/CheckRpc.antt =====
-- AccessController.Check: the RPC by which clients, and the other nodes, ask for a check.
use access_controller.Prelude.{ℕ, ◌≡◌, refl, subst, ◌≢◌, not, Bool, Option, none, some, [], arith}
use access_controller.Text.{Text, bytes, is_empty}
use access_controller.Status.{Failure, status, invalid_argument, field_required}
use access_controller.Result.{Result, returns, fails, ◌>>=◌, ◌>>◌, require, found}
use access_controller.Tuple.{
  Subject, subject_id, SubjectMessage, subject_string, subject_to_proto, subject_from_proto,
}
use access_controller.Context.{Context}
use access_controller.Check.{Node, check}
use access_controller.Check.Types.{Query, Outcome, ok, err}
use access_controller.Check.Semantics.{Granted}
use access_controller.Check.Pins.{rules_at}
use access_controller.Check.Rules.{Decides}
use access_controller.Check.Sound.{ArePeersRight, check-Decides}

pub record CheckRequest : Type 0 where
  pub namespace : Text
  pub object : Text
  pub relation : Text
  pub subject : Option SubjectMessage

-- "'%s' is a required field and cannot be empty", or "cannot be nil"
abbrev pub required : Text → Failure
required field = status invalid_argument (field_required field)

-- the fields of the request, in the order in which they are tested
unfoldable pub read_check : CheckRequest → Result Query
read_check req = do
  require (not (is_empty req.namespace)) (required (bytes "namespace"))
  require (not (is_empty req.object)) (required (bytes "object"))
  require (not (is_empty req.relation)) (required (bytes "relation"))
  subject ← found (subject_from_proto req.subject) (required (bytes "subject"))
  returns (record {
    namespace = req.namespace;
    object = req.object;
    relation = req.relation;
    user = subject_string subject;
  })

answer_read : Node → ℕ → Context → Result Query → Option Outcome
answer_read n fuel ctx (fails e) = some (err e)
answer_read n fuel ctx (returns q) = check n fuel ctx q

-- Check; `allowed` of the response is the Boolean
unfoldable pub check_rpc : Node → ℕ → Context → CheckRequest → Option Outcome
unfolding answer_read
check_rpc n fuel ctx req = answer_read n fuel ctx (read_check req)

-- the request that `check` sends to the owner of an object
unfoldable pub forwarded : Query → CheckRequest
forwarded q = record {
  namespace = q.namespace;
  object = q.object;
  relation = q.relation;
  subject = some (subject_to_proto (subject_id q.user));
}

pub read_check-forwarded :
    (q : Query)
    → q.namespace ≢ []
    → q.object ≢ []
    → q.relation ≢ []
    → read_check (forwarded q) ≡ returns q
unfolding read_check forwarded subject_from_proto subject_to_proto subject_string
read_check-forwarded q n o r = ground arith

-- The request that `check` forwards is read by the owner's handler as the very same check, unless
-- the namespace, the object or the relation is empty.
pub check_rpc-forwarded :
    (n : Node) (fuel : ℕ) (ctx : Context) (q : Query)
    → q.namespace ≢ []
    → q.object ≢ []
    → q.relation ≢ []
    → check_rpc n fuel ctx (forwarded q) ≡ check n fuel ctx q
unfolding check_rpc
check_rpc-forwarded n fuel ctx q ns o r = rw (read_check-forwarded q ns o r)

-- The fields are set, and the check is of them and of the printed form of the subject.
pub record IsReadAs (req : CheckRequest) (q : Query) : Type 0 where
  pub filled : (q.namespace ≢ []) × (q.object ≢ []) × (q.relation ≢ [])
  pub same : (req.namespace ≡ q.namespace) × (req.object ≡ q.object) × (req.relation ≡ q.relation)
  pub subject :
      (s : Subject) × (subject_from_proto req.subject ≡ some s) × (q.user ≡ subject_string s)

read_check-IsReadAs :
    (req : CheckRequest) (q : Query) (o : Option Subject)
    → subject_from_proto req.subject ≡ o
    → read_check req ≡ returns q
    → IsReadAs req q
unfolding read_check
read_check-IsReadAs req q none e h = ground arith
read_check-IsReadAs req q (some s) e h = record {
  filled = ground arith;
  same = ground arith;
  subject = (s, e, ground arith);
}

-- what a response says of the request
abbrev pub Answers : Node → Context → CheckRequest → Bool → Type 0
Answers n ctx req b =
    (q : Query) × IsReadAs req q × Decides (Granted n.tuples (rules_at n ctx) q) (some (ok b))

answer_read-Answers :
    (n : Node) (fuel : ℕ) (ctx : Context) (req : CheckRequest) (b : Bool) (r : Result Query)
    → ArePeersRight n ctx
    → read_check req ≡ r
    → answer_read n fuel ctx r ≡ some (ok b)
    → Answers n ctx req b
unfolding answer_read
answer_read-Answers n fuel ctx req b (fails e) right h u = cc
answer_read-Answers n fuel ctx req b (returns q) right h u = (
  q,
  read_check-IsReadAs req q _ refl h,
  subst (Decides (Granted n.tuples (rules_at n ctx) q)) u (check-Decides n fuel ctx q right),
)

-- A response of Check is given only to a request whose fields are all set, and then, if the peers'
-- answers are right, its Boolean says whether the printed form of the subject is granted the
-- relation.
pub check_rpc-Answers :
    (n : Node) (fuel : ℕ) (ctx : Context) (req : CheckRequest) (b : Bool)
    → ArePeersRight n ctx
    → check_rpc n fuel ctx req ≡ some (ok b)
    → Answers n ctx req b
unfolding check_rpc
check_rpc-Answers n fuel ctx req b right h =
    answer_read-Answers n fuel ctx req b (read_check req) right refl h
