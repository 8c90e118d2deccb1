-- ===== src/Store/Agreement.antt =====
-- The three reading methods of the store agree, which is what an expansion assumes of them.
use access_controller.Prelude.{
  ℕ, suc, ◌≡◌, refl, subst, ◌≢◌, ◌↔◌, inl, inr, false, some, List, [], ◌∷◌, In,
}
use access_controller.Text.{Text, contains, is_empty}
use access_controller.Tuple.{
  SubjectSet, Subject, subject_id, subject_set, SubjectMessage, InternalRelationTuple,
  subject_string, subject_from_string,
}
use access_controller.Expand.{tuples_of}
use access_controller.Expand.Meaning.{Agree, target_object}
use access_controller.Store.{
  Row, Database, sets_query, subject_sets, row_count, count_query, list_query, list_relation_tuples,
  sql_reader,
}
use access_controller.Store.Rows.{Matches, Answers, IsEncoded}
use access_controller.Store.Patterns.{set-Like}
use access_controller.Store.Answers.{
  subject_of_row, set_of_row, set_subject, read_sets_lem, read_tuples_lem,
}

-- The row is one of the object and the relation.
abbrev IsOf : SubjectSet → Row → Type 0
IsOf target r = (r.object ≡ target.object) × (r.relation ≡ target.relation)

only : {a b : Text} → In a (b ∷ []) → a ≡ b
only (inl e) = e
only (inr m) = absurd m

filled : (o : Text) → o ≢ [] → is_empty o ≡ false
filled [] ne = absurd (ne refl)
filled (c ∷ o) ne = refl

-- The conditions of the query that lists a relation of an object.
list-Matches :
    (debug : SubjectMessage → Text) (target : SubjectSet) (r : Row)
    → target.object ≢ []
    → Matches (list_query debug (tuples_of target target.relation)) r ↔ IsOf target r
list-Matches debug target r full =
    rw (filled target.object full) (λ (o, m, u). (o, only m), λ (o, e). (o, inl e, tt))

module _ (db : Database) (rows : Text → List Row) (debug : SubjectMessage → Text)
    (answers : Answers db rows)
    (encoded : (namespace : Text) (r : Row) → In r (rows namespace) → IsEncoded r) where
  -- The subjects that are listed are those of the rows.
  listed_subjects :
      (target : SubjectSet) (listed : List InternalRelationTuple) (u : Subject)
      → target.object ≢ []
      → list_relation_tuples db debug (tuples_of target target.relation) ≡ some listed
      → ((t : InternalRelationTuple) × In t listed × (t.subject ≡ u)) ↔ (
          (r : Row) × In r (rows target.namespace)
          × IsOf target r
          × (subject_from_string r.subject ≡ some u))
  unfolding list_relation_tuples
  listed_subjects target listed u full l =
      let (rs, k, are) = answers.all_rows (list_query debug (tuples_of target target.relation)) in
      let read = read_tuples_lem target.namespace rs listed u (rw k at l) in
      (
        λ h.
            let (r, m, e) = read.0 h in
            let (i, fits) = (are r).0 m in (r, i, (list-Matches debug target r full).0 fits, e),
        λ (r, i, o, e). read.1 (r, (are r).1 (i, (list-Matches debug target r full).1 o), e),
      )

  sets_agree :
      (target : SubjectSet) (listed : List InternalRelationTuple)
      → target.object ≢ []
      → list_relation_tuples db debug (tuples_of target target.relation) ≡ some listed
      → (ss : List SubjectSet) × (subject_sets db (target_object target) (target.relation ∷ [])
          ≡ some ss)
        × ((s : SubjectSet)
            → In s ss ↔ ((t : InternalRelationTuple) × In t listed × (t.subject ≡ subject_set s)))
  unfolding subject_sets subject_string
  sets_agree target listed full l =
      let (texts, k, are) =
        answers.all_subjects (sets_query (target_object target) (target.relation ∷ [])) in
      let (sets, k', read) = read_sets_lem texts (λ x m.
        let (r, i, (o, e, fits), p) = (are x).0 m in
        let (s, h) = set_subject r (encoded _ r i) fits in
        (s, rw (← p) (set_of_row r s (encoded _ r i) h))) in
      (
        sets,
        rw k k',
        λ s. (
          λ m.
              let (x, i, e) = (read s).0 m in
              let (r, j, (o, f, fits), p) = (are x).0 i in
              let (s', h) = set_subject r (encoded _ r j) fits in
              let own = set_of_row r s' (encoded _ r j) h in
              let one : s' ≡ s = cc in
              (listed_subjects target listed (subject_set s) full l).1 (
                r,
                j,
                (o, only f),
                subst (λ y. subject_from_string r.subject ≡ some (subject_set y)) one h,
              ),
          λ h.
              let (r, j, (o, f), e) = (listed_subjects target listed (subject_set s) full l).0 h in
              let (printed, plain, proper) = subject_of_row r (subject_set s) (encoded _ r j) e in
              (read s).1 (
                r.subject,
                (are r.subject).1 (r, j, (o, inl f, rw printed (set-Like s proper)), refl),
                set_of_row r s (encoded _ r j) e,
              ),
        ),
      )

  -- The number of rows that name a user.
  counts_agree :
      (user : Text) (target : SubjectSet) (listed : List InternalRelationTuple)
      → contains user b'#' ≡ false
      → target.object ≢ []
      → list_relation_tuples db debug (tuples_of target target.relation) ≡ some listed
      → ((n : ℕ) × (row_count db (target_object target) (target.relation ∷ []) (subject_id user)
            ≡ some (suc n)))
        ↔ ((t : InternalRelationTuple) × In t listed × (t.subject ≡ subject_id user))
  unfolding row_count subject_from_string subject_string
  counts_agree user target listed plain full l =
      let number =
        answers.number
          (count_query (target_object target) (target.relation ∷ []) (subject_id user)) in
      (
        λ h.
            let (r, i, (o, f, e)) = number.0 h in
            (listed_subjects target listed (subject_id user) full l).1
              (r, i, (o, only f), rw e (rw plain refl)),
        λ h.
            let (r, i, (o, f), e) = (listed_subjects target listed (subject_id user) full l).0 h in
            let (printed, own, proper) = subject_of_row r (subject_id user) (encoded _ r i) e in
            number.1 (r, i, (o, inl f, printed)),
      )

-- If the database answers each query by the rows that meet its conditions, and the subject of each
-- row is the text form of a subject id without '#' or of a subject set that is plain, has no empty
-- part and does not name the relation "...", then SubjectSets, RowCount and ListRelationTuples agree
-- on the subjects of a relation, for a user without '#'.
pub sql_reader-Agree :
    (db : Database) (rows : Text → List Row) (debug : SubjectMessage → Text) (user : Text)
    → Answers db rows
    → ((namespace : Text) (r : Row) → In r (rows namespace) → IsEncoded r)
    → contains user b'#' ≡ false
    → Agree (sql_reader db) (list_relation_tuples db debug) user
sql_reader-Agree db rows debug user answers encoded plain = record {
  sets = sets_agree db rows debug answers encoded;
  counted = λ target listed full l.
      counts_agree db rows debug answers encoded user target listed plain full l;
  well_formed = λ target listed t s full l m e.
      let (r, i, o, k) =
        (listed_subjects db rows debug answers encoded target listed (subject_set s) full l).0
          (t, m, e) in
      let (printed, own, (ns, object, relation, named)) =
        subject_of_row r (subject_set s) (encoded _ r i) k in
      (named, object);
}
