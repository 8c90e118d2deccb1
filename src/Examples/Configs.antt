-- ===== src/Examples/Configs.antt =====
-- Validation, the snapshot store and the choice of a snapshot.
use access_controller.Prelude.{◌≡◌, refl, ◌≢◌, ◌↔◌, some, [], ◌∷◌, arith, inl, inr}
use access_controller.Map.{get, put, empty, entry}
use access_controller.Text.{Text, bytes, text_eq, text_ne, text_key}
use access_controller.Time.{time_eq, round_utc}
use access_controller.Config.{
  Rewrite, union, this, computed_subjectset, tuple_to_subjectset, nested, nil, cons, valid,
  RelationSet, validate_rewrite,
}
use access_controller.Config.Scope.{
  IsScoped, IsLastNested, validate_rewrite_iff, nested_hides_undefined, map_followed,
  validate_rewrite-map_followed,
}
use access_controller.Snapshots.{set_snapshot, delete_snapshots, list_snapshots}
use access_controller.Snapshots.Invariant.{IsValid, updates-IsValid}
use access_controller.Choose.{
  ConfigSnapshot, choose, choose_among, smallest, common_timestamps, add_all, latest, select,
}
use access_controller.Choose.Sound.{IsChoice}
use access_controller.Choose.Peers.{choose-IsChoice, choose_among_three}
use access_controller.Examples.Data.{at, doc, sample_config, sample_store}

abbrev defined : RelationSet
defined = (bytes "owner", tt) ∷ (bytes "viewer", tt) ∷ []

-- viewers are those who own the object, or view its parent
abbrev viewer_rule : Rewrite
viewer_rule =
    union (cons this (cons (nested (union (cons (computed_subjectset (bytes "owner")) nil))) nil))

validate_rewrite_iff_example :
    (validate_rewrite defined viewer_rule ≡ valid) ↔ IsScoped defined viewer_rule
unfolding IsLastNested
validate_rewrite_iff_example = validate_rewrite_iff defined viewer_rule tt

nested_hides_undefined_example :
    (validate_rewrite defined
        (union (cons (nested viewer_rule) (cons (computed_subjectset (bytes "ghost")) nil)))
      ≡ valid)
    × (¬ (
        IsScoped defined
          (union (cons (nested viewer_rule) (cons (computed_subjectset (bytes "ghost")) nil)))))
unfolding validate_rewrite get text_eq
nested_hides_undefined_example =
    nested_hides_undefined defined viewer_rule (bytes "ghost") nil refl refl

-- The parent's owners, and the parent's ghosts.
abbrev parent_rule : Text → Rewrite
parent_rule relation = union (cons (tuple_to_subjectset (some (bytes "viewer")) relation) nil)

validate_rewrite-map_followed_example :
    validate_rewrite defined (parent_rule (bytes "ghost"))
    ≡ validate_rewrite defined (parent_rule (bytes "owner"))
unfolding map_followed
validate_rewrite-map_followed_example =
    validate_rewrite-map_followed defined (λ relation. bytes "ghost") (parent_rule (bytes "owner"))

sample_store-IsValid : IsValid sample_store
unfolding round_utc
sample_store-IsValid = record { unique = entry (λ h. h) empty; normal = (((refl, tt), tt), tt) }

updates-IsValid_example :
    IsValid (set_snapshot sample_store (bytes "b") doc sample_config (at 9))
    × IsValid (delete_snapshots sample_store (bytes "b"))
updates-IsValid_example =
    updates-IsValid sample_store (bytes "b") doc sample_config (at 9) sample_store-IsValid

abbrev chosen : ConfigSnapshot
chosen = record { config = some sample_config; timestamp = at 5 }

choose-IsChoice_example : IsChoice (list_snapshots sample_store doc) chosen
unfolding choose choose_among list_snapshots smallest common_timestamps add_all latest select get
    put text_eq time_eq
choose-IsChoice_example =
    choose-IsChoice sample_store doc chosen sample_store-IsValid (omega arith) refl

a_not_b : bytes "a" ≢ bytes "b"
unfolding text_eq
a_not_b = text_ne (bytes "a") (bytes "b") refl

a_not_c : bytes "a" ≢ bytes "c"
unfolding text_eq
a_not_c = text_ne (bytes "a") (bytes "c") refl

choose_among_three_example :
    choose_among (
      (bytes "a", (at 5, sample_config) ∷ [])
      ∷ (bytes "b", (at 5, sample_config) ∷ [])
      ∷ (bytes "c", (at 9, sample_config) ∷ [])
      ∷ [])
    ≡ some chosen
choose_among_three_example =
    choose_among_three (bytes "a") (bytes "b") (bytes "c") sample_config sample_config (at 5)
      ((at 9, sample_config) ∷ []) a_not_b a_not_c (omega arith) (omega arith)
      (λ h. elim h [ inl e ↦ absurd (omega arith) | inr k ↦ k ])
