-- ===== src/Store.antt =====
-- The relation tuple store on SQL (internal/datastores/sql-store.go), without its transaction.
--
-- The database, with the builder that renders the queries, is a parameter. A query is the data that
-- the code hands to the builder; `none` is an error of the builder or of the database.
pub mod Rows
pub mod Patterns
pub mod Answers
pub mod Agreement
pub mod Transaction
pub mod Effects
pub mod Committed
pub mod Tables
pub mod Lookups
pub mod Malformed
pub mod Listing
pub mod Written
use access_controller.Prelude.{
  ℕ, Bool, true, false, Option, none, some, List, [], ◌∷◌, if◌then◌else◌,
}
use access_controller.Text.{Text, bytes, is_empty}
use access_controller.Tuple.{
  Object, SubjectSet, Subject, subject_id, SubjectMessage, InternalRelationTuple, subject_string,
  set_from_string, subject_from_string,
}
use access_controller.Check.{TupleReader}
use access_controller.Handler.ListRpc.{TupleQuery, TupleLister}

-- The condition on the column subject.
pub data SubjectFilter : Type 0 where
  any_subject : SubjectFilter
  subject_is : Text → SubjectFilter
  subject_like : Text → SubjectFilter

-- From(table).Where(…): an object or relations that are `none` are no condition.
pub record Selection : Type 0 where
  pub table : Text
  pub object : Option Text
  pub relations : Option (List Text)
  pub subject : SubjectFilter

-- The columns of a namespace's table.
pub record Row : Type 0 where
  pub object : Text
  pub relation : Text
  pub subject : Text

-- The rows that rows.Next goes through; `none` is a row that rows.Scan refuses.
abbrev pub Rows : Type 0 → Type 0
Rows A = List (Option A)

-- sql.DB: SELECT *, SELECT subject and SELECT COUNT(*)
pub record Database : Type 0 where
  pub select_rows : Selection → Option (Rows Row)
  pub select_subjects : Selection → Option (Rows Text)
  pub select_count : Selection → Option ℕ

-- the query of SubjectSets
abbrev pub sets_query : Object → List Text → Selection
sets_query object relations = record {
  table = object.namespace;
  object = some object.id;
  relations = some relations;
  subject = subject_like (bytes "_%%:_%%#_%%");
}

-- append, unless there is an error here or later
abbrev pub prepend : {A : Type 0} → Option A → Option (List A) → Option (List A)
prepend none rest = none
prepend (some a) none = none
prepend (some a) (some rest) = some (a ∷ rest)

-- the loop of SubjectSets
unfoldable pub read_sets : Rows Text → Option (List SubjectSet)
read_sets [] = some []
read_sets (none ∷ rows) = none
read_sets (some s ∷ rows) = prepend (set_from_string s) (read_sets rows)

sets_of : Option (Rows Text) → Option (List SubjectSet)
sets_of none = none
sets_of (some rows) = read_sets rows

-- SubjectSets
unfoldable pub subject_sets : Database → Object → List Text → Option (List SubjectSet)
unfolding sets_of
subject_sets db object relations = sets_of (db.select_subjects (sets_query object relations))

abbrev pub count_query : Object → List Text → Subject → Selection
count_query object relations subject = record {
  table = object.namespace;
  object = some object.id;
  relations = some relations;
  subject = subject_is (subject_string subject);
}

-- RowCount
unfoldable pub row_count : Database → Object → List Text → Subject → Option ℕ
row_count db object relations subject = db.select_count (count_query object relations subject)

-- the tuple of a row of the namespace's table
as_tuple : Text → Row → Option Subject → Option InternalRelationTuple
as_tuple namespace row none = none
as_tuple namespace row (some subject) = some (record {
  namespace = namespace;
  object = row.object;
  relation = row.relation;
  subject = subject;
})

-- the loop of ListRelationTuples
unfoldable pub read_tuples : Text → Rows Row → Option (List InternalRelationTuple)
unfolding as_tuple
read_tuples namespace [] = some []
read_tuples namespace (none ∷ rows) = none
read_tuples namespace (some row ∷ rows) =
    prepend (as_tuple namespace row (subject_from_string row.subject)) (read_tuples namespace rows)

tuples_in : Text → Option (Rows Row) → Option (List InternalRelationTuple)
tuples_in namespace none = none
tuples_in namespace (some rows) = read_tuples namespace rows

-- no condition for an empty list
abbrev pub some_relations : List Text → Option (List Text)
some_relations [] = none
some_relations (r ∷ rs) = some (r ∷ rs)

-- A subject is compared in the text form `debug` of its protobuf message, (*Subject).String.
abbrev subject_filter : (SubjectMessage → Text) → Option SubjectMessage → SubjectFilter
subject_filter debug none = any_subject
subject_filter debug (some s) = subject_is (debug s)

abbrev pub list_query : (SubjectMessage → Text) → TupleQuery → Selection
list_query debug query = record {
  table = query.namespace;
  object = if is_empty query.object then none else some query.object;
  relations = some_relations query.relations;
  subject = subject_filter debug query.subject;
}

-- ListRelationTuples
unfoldable pub list_relation_tuples : Database → (SubjectMessage → Text) → TupleLister
unfolding tuples_in
list_relation_tuples db debug query =
    tuples_in query.namespace (db.select_rows (list_query debug query))

-- What a check reads of the store.
abbrev pub sql_reader : Database → TupleReader
sql_reader db = record {
  subject_sets = subject_sets db;
  row_count = λ object relations user. row_count db object relations (subject_id user);
}
