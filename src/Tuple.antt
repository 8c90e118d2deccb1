-- ===== src/Tuple.antt =====
-- internal/relation-tuple.go: objects, subjects and relation tuples, their text forms and their
-- protobuf messages (acl.proto).
pub mod Strings
pub mod Keys
pub mod Proto
use access_controller.Prelude.{
  Bool, true, false, ◌&&◌, Option, none, some, List, [], ◌∷◌, ◌++◌, if◌then◌else◌,
}
use access_controller.Text.{Text, text_eq, contains, split}

pub record Object : Type 0 where
  pub namespace : Text
  pub id : Text

pub record SubjectSet : Type 0 where
  pub namespace : Text
  pub object : Text
  pub relation : Text

-- the interface Subject with its two implementations, *SubjectID and *SubjectSet
pub data Subject : Type 0 where
  subject_id : Text → Subject
  subject_set : SubjectSet → Subject

pub record InternalRelationTuple : Type 0 where
  pub namespace : Text
  pub object : Text
  pub relation : Text
  pub subject : Subject

-- SubjectSet.String: "%s:%s#%s"
unfoldable pub set_string : SubjectSet → Text
set_string s = s.namespace ++ b':' ∷ s.object ++ b'#' ∷ s.relation

-- Subject.String
unfoldable pub subject_string : Subject → Text
subject_string (subject_id id) = id
subject_string (subject_set s) = set_string s

-- Subject.Equals, on two subjects
unfoldable pub subject_equals : Subject → Subject → Bool
subject_equals (subject_id a) (subject_id b) = text_eq b a
subject_equals (subject_set s) (subject_set t) =
    text_eq t.relation s.relation && (text_eq t.object s.object && text_eq t.namespace s.namespace)
subject_equals _ _ = false

-- InternalRelationTuple.String: "%s:%s#%s@%s"
unfoldable pub tuple_string : InternalRelationTuple → Text
tuple_string r =
    r.namespace ++ b':' ∷ (r.object ++ b'#' ∷ (r.relation ++ b'@' ∷ subject_string r.subject))

-- SubjectSetFromString and SubjectSet.FromString; `none` is ErrInvalidSubjectSetString
inner_parts : List Text → Text → Option SubjectSet
inner_parts (namespace ∷ object ∷ []) relation =
    some (record { namespace = namespace; object = object; relation = relation })
inner_parts _ relation = none

set_of_parts : List Text → Option SubjectSet
set_of_parts (inner ∷ relation ∷ []) = inner_parts (split inner b':') relation
set_of_parts _ = none

unfoldable pub set_from_string : Text → Option SubjectSet
unfolding inner_parts set_of_parts
set_from_string s = set_of_parts (split s b'#')

as_subject : Option SubjectSet → Option Subject
as_subject none = none
as_subject (some s) = some (subject_set s)

-- SubjectFromString
unfoldable pub subject_from_string : Text → Option Subject
unfolding as_subject
subject_from_string s =
    if contains s b'#' then as_subject (set_from_string s) else some (subject_id s)

-- the message Subject; `ref_unset`: the oneof is not set
pub data SubjectMessage : Type 0 where
  ref_id : Text → SubjectMessage
  ref_set : SubjectSet → SubjectMessage
  ref_unset : SubjectMessage

-- the message RelationTuple; its subject may be missing
pub record TupleMessage : Type 0 where
  pub namespace : Text
  pub object : Text
  pub relation : Text
  pub subject : Option SubjectMessage

-- SubjectID.ToProto and SubjectSet.ToProto
unfoldable pub subject_to_proto : Subject → SubjectMessage
subject_to_proto (subject_id id) = ref_id id
subject_to_proto (subject_set s) = ref_set s

-- InternalRelationTuple.ToProto
unfoldable pub tuple_to_proto : InternalRelationTuple → TupleMessage
unfolding subject_to_proto
tuple_to_proto r = record {
  namespace = r.namespace;
  object = r.object;
  relation = r.relation;
  subject = some (subject_to_proto r.subject);
}

-- SubjectFromProto; a missing message has no reference either
unfoldable pub subject_from_proto : Option SubjectMessage → Option Subject
subject_from_proto none = none
subject_from_proto (some (ref_id id)) = some (subject_id id)
subject_from_proto (some (ref_set s)) = some (subject_set s)
subject_from_proto (some ref_unset) = none
