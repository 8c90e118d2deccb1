-- ===== src/Tuple/Proto.antt =====
-- Subjects and tuples as protobuf messages, and the equality of subjects.
use access_controller.Prelude.{◌≡◌, refl, ◌↔◌, true, some, arith}
use access_controller.Text.{text_eq_iff}
use access_controller.Tuple.{
  Subject, subject_id, subject_set, subject_equals, subject_to_proto, subject_from_proto,
}

subject_from_proto-to_proto :
    (u : Subject) → subject_from_proto (some (subject_to_proto u)) ≡ some u
unfolding subject_from_proto subject_to_proto
subject_from_proto-to_proto (subject_id id) = refl
subject_from_proto-to_proto (subject_set s) = refl

subject_equals_iff : (u v : Subject) → (subject_equals u v ≡ true) ↔ (u ≡ v)
unfolding subject_equals
subject_equals_iff (subject_id a) (subject_id b) = ground (arith, text_eq_iff b a)
subject_equals_iff (subject_id a) (subject_set t) = ground arith
subject_equals_iff (subject_set s) (subject_id b) = ground arith
subject_equals_iff (subject_set s) (subject_set t) = ground (
  arith,
  text_eq_iff t.relation s.relation,
  text_eq_iff t.object s.object,
  text_eq_iff t.namespace s.namespace,
)

-- `Equals` holds of two subjects exactly when they have one protobuf message.
pub subject_equals_iff_message :
    (u v : Subject) → (subject_equals u v ≡ true) ↔ (subject_to_proto u ≡ subject_to_proto v)
subject_equals_iff_message u v = (
  λ h. rw ((subject_equals_iff u v).0 h),
  λ h.
      (subject_equals_iff u v).1
        (cc (h, subject_from_proto-to_proto u, subject_from_proto-to_proto v)),
)
