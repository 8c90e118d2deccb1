-- ===== src/Store/Rows.antt =====
-- The rows of the tuple tables: what the queries of the store say of them, and how a row encodes a
-- tuple.
use access_controller.Prelude.{ℕ, suc, ◌≡◌, ◌≢◌, ◌↔◌, Option, none, some, List, [], ◌∷◌, map, In}
use access_controller.Text.{Text}
use access_controller.Tuple.{Subject, subject_id, subject_set, subject_string}
use access_controller.Tuple.Strings.{IsPlainSubject}
use access_controller.Check.{ellipsis}
use access_controller.Store.{
  SubjectFilter, any_subject, subject_is, subject_like, Selection, Row, Database,
}

-- SQL's LIKE: '_' stands for one character, '%' for any number of them.
pub data Like : Text → Text → Type 0 where
  end : Like [] []
  any_one : {p s : Text} {c : ℕ} → Like p s → Like (b'_' ∷ p) (c ∷ s)
  skip : {p s : Text} → Like p s → Like (b'%' ∷ p) s
  take : {p s : Text} {c : ℕ} → Like (b'%' ∷ p) s → Like (b'%' ∷ p) (c ∷ s)
  same : {p s : Text} {c : ℕ} → c ≢ b'_' → c ≢ b'%' → Like p s → Like (c ∷ p) (c ∷ s)

abbrev pub Fits : SubjectFilter → Text → Type 0
Fits any_subject s = Unit
Fits (subject_is t) s = s ≡ t
Fits (subject_like p) s = Like p s

abbrev pub Equals : Option Text → Text → Type 0
Equals none s = Unit
Equals (some t) s = s ≡ t

abbrev pub Among : Option (List Text) → Text → Type 0
Among none s = Unit
Among (some ts) s = In s ts

-- The row meets the conditions of a query.
abbrev pub Matches : Selection → Row → Type 0
Matches q r = Equals q.object r.object × Among q.relations r.relation × Fits q.subject r.subject

-- The database answers each query by the rows of the table that meet the conditions, each of which
-- can be read.
pub record Answers (db : Database) (rows : Text → List Row) : Type 0 where
  pub all_rows :
      (q : Selection)
      → (rs : List Row) × (db.select_rows q ≡ some (map some rs))
        × ((r : Row) → In r rs ↔ (In r (rows q.table) × Matches q r))
  pub all_subjects :
      (q : Selection)
      → (ss : List Text) × (db.select_subjects q ≡ some (map some ss))
        × ((s : Text) → In s ss ↔ ((r : Row) × In r (rows q.table) × Matches q r × (r.subject ≡ s)))
  pub number :
      (q : Selection)
      → ((n : ℕ) × (db.select_count q ≡ some (suc n)))
        ↔ ((r : Row) × In r (rows q.table) × Matches q r)

-- The parts of a subject set are not empty, and its relation is not "...".
abbrev pub IsProper : Subject → Type 0
IsProper (subject_id id) = Unit
IsProper (subject_set s) =
    (s.namespace ≢ []) × (s.object ≢ []) × (s.relation ≢ []) × (s.relation ≢ ellipsis)

-- The row's subject is the text form of one that is read back as it is.
pub record IsEncoded (r : Row) : Type 0 where
  pub subject : Subject
  pub printed : r.subject ≡ subject_string subject
  pub plain : IsPlainSubject subject
  pub proper : IsProper subject
