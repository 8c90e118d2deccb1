-- ===== src/Store/Listing.antt =====
-- ListRelationTuples, from the request to the rows of the namespace's table.
use access_controller.Prelude.{◌≡◌, ◌≢◌, ◌↔◌, false, some, List, [], map, In}
use access_controller.Text.{Text}
use access_controller.Tuple.{
  SubjectMessage, InternalRelationTuple, tuple_to_proto, subject_from_string,
}
use access_controller.Handler.ListRpc.{TupleQuery, ListResponse}
use access_controller.Store.{Row}
use access_controller.Store.Rows.{Answers}

-- The tuple that the row is in the namespace's table.
pub record IsTupleOf (namespace : Text) (r : Row) (t : InternalRelationTuple) : Type 0 where
  pub same : (t.namespace ≡ namespace) × (t.object ≡ r.object) × (t.relation ≡ r.relation)
  pub read : subject_from_string r.subject ≡ some t.subject

-- What the fields of the query ask of a row; a subject is compared in the text form `debug`.
pub record IsAsked (debug : SubjectMessage → Text) (query : TupleQuery) (r : Row) : Type 0 where
  pub object : query.object ≢ [] → r.object ≡ query.object
  pub relation : query.relations ≢ [] → In r.relation query.relations
  pub subject : (s : SubjectMessage) → query.subject ≡ some s → r.subject ≡ debug s

-- The response has the messages of a list of tuples, which are those of the rows of the namespace's
-- table that the query asks for; it has no token of a next page and is not marked as the last page.
pub record HasRows (rows : Text → List Row) (debug : SubjectMessage → Text) (query : TupleQuery)
    (response : ListResponse) : Type 0 where
  pub tuples : List InternalRelationTuple
  pub sent : response.relation_tuples ≡ map tuple_to_proto tuples
  pub stored :
      (t : InternalRelationTuple)
      → In t tuples ↔ (
          (r : Row) × In r (rows query.namespace)
          × IsAsked debug query r
          × IsTupleOf query.namespace r t)
  pub unmarked : (response.next_page_token ≡ []) × (response.is_last_page ≡ false)
