-- ===== src/Handler/ListRpc.antt =====
-- AccessController.ListRelationTuples (internal/access-controller.go), over the tuple store.
use access_controller.Prelude.{
  ℕ, ap, Bool, false, ◌≡◌, sym, ◌≢◌, not, Option, some, List, [], map, arith,
}
use access_controller.Text.{Text, bytes, is_empty}
use access_controller.Status.{Failure, status, invalid_argument, field_required, internal_status}
use access_controller.Result.{
  Result, returns, ◌>>=◌, ◌>>◌, require, found, >>=-returns, found-returns,
}
use access_controller.Tuple.{InternalRelationTuple, SubjectMessage, TupleMessage, tuple_to_proto}
use access_controller.Snapshots.{ConfigStore}
use access_controller.Choose.{ConfigSnapshot, choose}
use access_controller.Check.{undefined_namespace}

-- ListRelationTuplesRequest_Query
pub record TupleQuery : Type 0 where
  pub namespace : Text
  pub object : Text
  pub relations : List Text
  pub subject : Option SubjectMessage

-- RelationTupleStore.ListRelationTuples; `none` is an error
abbrev pub TupleLister : Type 0
TupleLister = TupleQuery → Option (List InternalRelationTuple)

-- "'%s' is a required field and cannot be empty", or "cannot be nil"
abbrev required : Text → Failure
required field = status invalid_argument (field_required field)

-- ListRelationTuplesRequest; `page_size` is the bits of an int32
pub record ListRequest : Type 0 where
  pub query : Option TupleQuery
  pub snaptoken : Text
  pub page_size : ℕ
  pub page_token : Text

-- ListRelationTuplesResponse
pub record ListResponse : Type 0 where
  pub relation_tuples : List TupleMessage
  pub next_page_token : Text
  pub is_last_page : Bool

-- ListRelationTuples: nothing but the query of the request is read, and of the response only the
-- tuples are set
unfoldable pub list_rpc : ConfigStore → TupleLister → ListRequest → Result ListResponse
list_rpc store list request = do
  query ← found request.query (required (bytes "query"))
  require (not (is_empty query.namespace)) (required (bytes "query.namespace"))
  s ← found (choose store query.namespace) (undefined_namespace query.namespace)
  tuples ← found (list query) internal_status
  returns (record {
    relation_tuples = map tuple_to_proto tuples;
    next_page_token = [];
    is_last_page = false;
  })

-- What a response stands for: the query of the request, which names a known namespace, and the stored
-- tuples, whose messages it has.
pub record IsListed (store : ConfigStore) (list : TupleLister) (request : ListRequest)
    (response : ListResponse) : Type 0 where
  pub query : TupleQuery
  pub present : (request.query ≡ some query) × (query.namespace ≢ [])
  pub known : (s : ConfigSnapshot) × (choose store query.namespace ≡ some s)
  pub tuples : List InternalRelationTuple
  pub listed : list query ≡ some tuples
  pub sent : response.relation_tuples ≡ map tuple_to_proto tuples
  pub unmarked : (response.next_page_token ≡ []) × (response.is_last_page ≡ false)

pub list_rpc-IsListed :
    (store : ConfigStore) (list : TupleLister) (request : ListRequest) (response : ListResponse)
    → list_rpc store list request ≡ returns response
    → IsListed store list request response
unfolding list_rpc
list_rpc-IsListed store list request response h =
    let (q, asked, h0) = >>=-returns (found request.query _) _ response h in
    let (u, full, h1) = >>=-returns (require (not (is_empty q.namespace)) _) _ response h0 in
    let (s, known, h2) = >>=-returns (found (choose store q.namespace) _) _ response h1 in
    let (tuples, listed, h3) = >>=-returns (found (list q) _) _ response h2 in
    let same : record {
      relation_tuples = map tuple_to_proto tuples;
      next_page_token = [];
      is_last_page = false;
    }
        ≡ response =
      cc in
    record {
      query = q;
      present = (found-returns request.query _ q asked, ground arith);
      known = (s, found-returns (choose store q.namespace) _ s known);
      tuples = tuples;
      listed = found-returns (list q) _ tuples listed;
      sent = ap (λ r. r.relation_tuples) (sym same);
      unmarked = (ap (λ r. r.next_page_token) (sym same), ap (λ r. r.is_last_page) (sym same));
    }
