-- ===== src/Tuple/Strings.antt =====
-- Text forms of subjects: printing and parsing.
use access_controller.Prelude.{
  ℕ, ◌≡◌, refl, sym, ◌∙◌, ◌≢◌, ◌↔◌, true, false, ◌||◌, some, List, [], ◌∷◌, ◌++◌, arith,
}
use access_controller.Text.{Text, contains, split}
use access_controller.Tuple.{
  SubjectSet, Subject, subject_id, subject_set, set_string, subject_string, inner_parts,
  set_of_parts, set_from_string, subject_from_string,
}

-- A text without the separator is one part.
split_whole : (s : Text) (sep : ℕ) → contains s sep ≡ false → split s sep ≡ s ∷ []
unfolding contains split
split_whole [] sep h = refl
split_whole (c ∷ s) sep h = ground (arith, split_whole s sep)

split-append :
    (s t : Text) (sep : ℕ) → contains s sep ≡ false → split (s ++ sep ∷ t) sep ≡ s ∷ split t sep
unfolding contains split
split-append [] t sep h = ground arith
split-append (c ∷ s) t sep h = ground (arith, split-append s t sep)

contains-append :
    (s t : Text) (sep : ℕ) → contains (s ++ t) sep ≡ (contains s sep || contains t sep)
unfolding contains
contains-append [] t sep = refl
contains-append (c ∷ s) t sep = ground (arith, contains-append s t sep)

split-ne-nil : (s : Text) (sep : ℕ) → split s sep ≢ []
unfolding split
split-ne-nil [] sep h = cc
split-ne-nil (c ∷ s) sep h = ground (arith, split-ne-nil s sep)

-- The only part of a text is the text itself.
split_single :
    (s : Text) (sep : ℕ) (a : Text) → split s sep ≡ a ∷ [] → (s ≡ a) × (contains a sep ≡ false)
unfolding contains split
split_single [] sep a h = ground arith
split_single (c ∷ s) sep [] h = ground (arith, split-ne-nil s sep)
split_single (c ∷ s) sep (d ∷ a) h = ground (arith, split-ne-nil s sep, split_single s sep a)

split_pair :
    (s : Text) (sep : ℕ) (a b : Text)
    → split s sep ≡ a ∷ b ∷ []
    → (s ≡ a ++ sep ∷ b) × (contains a sep ≡ false) × (contains b sep ≡ false)
unfolding contains split
split_pair [] sep a b h = ground arith
split_pair (c ∷ s) sep [] b h = ground (arith, split-ne-nil s sep, split_single s sep b)
split_pair (c ∷ s) sep (d ∷ a) b h = ground (arith, split-ne-nil s sep, split_pair s sep a b)

-- The separators of a subject set occur in none of its parts; ':' may occur in the relation.
pub record IsPlain (s : SubjectSet) : Type 0 where
  pub namespace_hash : contains s.namespace b'#' ≡ false
  pub namespace_colon : contains s.namespace b':' ≡ false
  pub object_hash : contains s.object b'#' ≡ false
  pub object_colon : contains s.object b':' ≡ false
  pub relation_hash : contains s.relation b'#' ≡ false

inner_hash : (s : SubjectSet) → IsPlain s → contains (s.namespace ++ b':' ∷ s.object) b'#' ≡ false
unfolding contains
inner_hash s p = rw contains-append (ground (arith, p.namespace_hash, p.object_hash))

set_string_plain : (s : SubjectSet) → IsPlain s → set_from_string (set_string s) ≡ some s
unfolding set_from_string set_string
set_string_plain s p =
    rw (split-append (s.namespace ++ b':' ∷ s.object) s.relation b'#' (inner_hash s p)) (
      rw (split_whole s.relation b'#' p.relation_hash) (
        rw (split-append s.namespace s.object b':' p.namespace_colon)
          (rw (split_whole s.object b':' p.object_colon))))

inner_parts_inv :
    (ps : List Text) (r : Text) (s : SubjectSet)
    → inner_parts ps r ≡ some s
    → (ps ≡ s.namespace ∷ s.object ∷ []) × (r ≡ s.relation)
unfolding set_from_string
inner_parts_inv [] r s h = cc
inner_parts_inv (a ∷ []) r s h = cc
inner_parts_inv (a ∷ b ∷ []) r s h = ground arith
inner_parts_inv (a ∷ b ∷ c ∷ ps) r s h = cc

set_of_parts_inv :
    (ps : List Text) (s : SubjectSet)
    → set_of_parts ps ≡ some s
    → (inner : Text) × (ps ≡ inner ∷ s.relation ∷ [])
      × (split inner b':' ≡ s.namespace ∷ s.object ∷ [])
unfolding set_from_string
set_of_parts_inv [] s h = cc
set_of_parts_inv (a ∷ []) s h = cc
set_of_parts_inv (a ∷ b ∷ []) s h =
    let (p, q) = inner_parts_inv (split a b':') b s h in (a, rw q, p)
set_of_parts_inv (a ∷ b ∷ c ∷ ps) s h = cc

set_from_string_sound :
    (t : Text) (s : SubjectSet) → set_from_string t ≡ some s → (t ≡ set_string s) × IsPlain s
unfolding set_from_string set_string contains
set_from_string_sound t s h =
    let (inner, p, q) = set_of_parts_inv (split t b'#') s h in
    let (whole, inner_free, relation_free) = split_pair t b'#' inner s.relation p in
    let (inner_whole, ns_free, ob_free) = split_pair inner b':' s.namespace s.object q in
    let free : contains (s.namespace ++ b':' ∷ s.object) b'#' ≡ false =
      rw inner_whole at inner_free in
    let either = sym (contains-append s.namespace (b':' ∷ s.object) b'#') ∙ free in
    (
      rw whole (rw inner_whole),
      record {
        namespace_hash = ground (arith, either);
        namespace_colon = ns_free;
        object_hash = ground (arith, either);
        object_colon = ob_free;
        relation_hash = relation_free;
      },
    )

-- Parsing a text as a subject set gives a set exactly when the text is the printed form of that set
-- and the separators '#' and ':' stand in none of its parts (but ':' may stand in the relation).
pub set_from_string_iff :
    (t : Text) (s : SubjectSet) → (set_from_string t ≡ some s) ↔ ((t ≡ set_string s) × IsPlain s)
set_from_string_iff t s = (set_from_string_sound t s, λ h. rw h.0 (set_string_plain s h.1))

abbrev pub IsPlainSubject : Subject → Type 0
IsPlainSubject (subject_id id) = contains id b'#' ≡ false
IsPlainSubject (subject_set s) = IsPlain s

pub set_string-contains : (s : SubjectSet) → contains (set_string s) b'#' ≡ true
unfolding set_string contains
set_string-contains s = rw contains-append (ground arith)

-- A subject whose id has no '#', or whose set is plain, is read back from its printed form; this is
-- how a subject column of the tuple table is decoded.
pub subject_from_string-subject_string :
    (u : Subject) → IsPlainSubject u → subject_from_string (subject_string u) ≡ some u
unfolding subject_from_string subject_string
subject_from_string-subject_string (subject_id id) h = rw h
subject_from_string-subject_string (subject_set s) h =
    rw (set_string-contains s) (rw (set_string_plain s h))

-- Two plain subjects with one printed form are one subject.
pub subject_string_inj :
    (u v : Subject)
    → IsPlainSubject u
    → IsPlainSubject v
    → subject_string u ≡ subject_string v
    → u ≡ v
subject_string_inj u v p q h =
    cc (subject_from_string-subject_string u p, subject_from_string-subject_string v q)
