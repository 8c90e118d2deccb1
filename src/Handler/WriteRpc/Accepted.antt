-- ===== src/Handler/WriteRpc/Accepted.antt =====
-- What WriteRelationTuplesTxn accepts, said without the order in which it tests.
use access_controller.Prelude.{ℕ, ◌≡◌, refl, ◌≢◌, ◌⊎◌, Option, none, some, List, [], ◌∷◌, arith}
use access_controller.Text.{Text}
use access_controller.Result.{returns}
use access_controller.Config.{Rewrite, rewrite_from_config}
use access_controller.Tuple.{
  Subject, subject_id, subject_set, InternalRelationTuple, TupleMessage, subject_from_proto,
  subject_to_proto, tuple_to_proto,
}
use access_controller.Snapshots.{ConfigStore}
use access_controller.Choose.{ConfigSnapshot, choose}
use access_controller.Check.{ellipsis}
use access_controller.Handler.WriteRpc.{insert, delete, unspecified, Delta, read_tuple}

-- The message has all the fields of the tuple, and none is empty.
pub record IsTupleOf (rt : TupleMessage) (irt : InternalRelationTuple) : Type 0 where
  pub filled : (rt.namespace ≢ []) × (rt.object ≢ []) × (rt.relation ≢ [])
  pub same :
      (irt.namespace ≡ rt.namespace) × (irt.object ≡ rt.object) × (irt.relation ≡ rt.relation)
  pub subject : subject_from_proto rt.subject ≡ some irt.subject

abbrev pub HasConfig : ConfigStore → Text → ConfigSnapshot → Type 0
HasConfig store namespace s = choose store namespace ≡ some s

-- The relation is defined at the snapshot of the namespace that is chosen.
abbrev pub IsDefinedIn : ConfigStore → Text → Text → Type 0
IsDefinedIn store namespace relation =
    (s : ConfigSnapshot) × HasConfig store namespace s
    × (r : Rewrite) × (rewrite_from_config relation s.config ≡ some r)

-- A subject set names a namespace and "...", or a relation that is defined in it.
abbrev pub IsKnownSubject : ConfigStore → Subject → Type 0
IsKnownSubject store (subject_id id) = Unit
IsKnownSubject store (subject_set set) =
    (s : ConfigSnapshot) × HasConfig store set.namespace s
    × ((set.relation ≡ ellipsis)
        ⊎ ((r : Rewrite) × (rewrite_from_config set.relation s.config ≡ some r)))

-- The tuples that a list of deltas inserts and deletes, in order.
pub data Accepts (store : ConfigStore)
    : List Delta → List InternalRelationTuple → List InternalRelationTuple → Type 0 where
  no_deltas : Accepts store [] [] []
  inserted :
      {rt : TupleMessage} {irt : InternalRelationTuple} {deltas : List Delta}
      {inserts deletes : List InternalRelationTuple}
      → IsTupleOf rt irt
      → IsDefinedIn store irt.namespace irt.relation
      → IsKnownSubject store irt.subject
      → Accepts store deltas inserts deletes
      → Accepts store
          (record { action = insert; relation_tuple = rt } ∷ deltas)
          (irt ∷ inserts)
          deletes
  deleted :
      {rt : TupleMessage} {irt : InternalRelationTuple} {deltas : List Delta}
      {inserts deletes : List InternalRelationTuple} {s : ConfigSnapshot}
      → IsTupleOf rt irt
      → HasConfig store irt.namespace s
      → Accepts store deltas inserts deletes
      → Accepts store
          (record { action = delete; relation_tuple = rt } ∷ deltas)
          inserts
          (irt ∷ deletes)
  ignored :
      {rt : TupleMessage} {irt : InternalRelationTuple} {deltas : List Delta}
      {inserts deletes : List InternalRelationTuple} {s : ConfigSnapshot}
      → IsTupleOf rt irt
      → HasConfig store irt.namespace s
      → Accepts store deltas inserts deletes
      → Accepts store
          (record { action = unspecified; relation_tuple = rt } ∷ deltas)
          inserts
          deletes

pub read_tuple-IsTupleOf :
    (i : ℕ) (rt : TupleMessage) (irt : InternalRelationTuple) (o : Option Subject)
    → subject_from_proto rt.subject ≡ o
    → read_tuple i rt ≡ returns irt
    → IsTupleOf rt irt
unfolding read_tuple
read_tuple-IsTupleOf i rt irt none e h = ground arith
read_tuple-IsTupleOf i rt irt (some s) e h = record {
  filled = ground arith;
  same = ground arith;
  subject = ground arith;
}

pub IsTupleOf-read_tuple :
    (i : ℕ) (rt : TupleMessage) (irt : InternalRelationTuple)
    → IsTupleOf rt irt
    → read_tuple i rt ≡ returns irt
unfolding read_tuple
IsTupleOf-read_tuple i rt irt t =
    let (n, o, r) = t.filled in let (a, b, c) = t.same in let e = t.subject in ground arith

proto_subject : (u : Subject) → subject_from_proto (some (subject_to_proto u)) ≡ some u
unfolding subject_from_proto subject_to_proto
proto_subject (subject_id id) = refl
proto_subject (subject_set set) = refl

-- The message of a tuple with no empty field, as ListRelationTuples sends it, is read by
-- WriteRelationTuplesTxn at any index as that tuple.
pub read_tuple-tuple_to_proto :
    (i : ℕ) (r : InternalRelationTuple)
    → r.namespace ≢ []
    → r.object ≢ []
    → r.relation ≢ []
    → read_tuple i (tuple_to_proto r) ≡ returns r
unfolding tuple_to_proto
read_tuple-tuple_to_proto i r n o k =
    IsTupleOf-read_tuple i (tuple_to_proto r) r
      (record { filled = (n, o, k); same = (refl, refl, refl); subject = proto_subject r.subject })
