-- ===== src/Store/Answers.antt =====
-- What the loops of the store read, from rows that encode tuples.
use access_controller.Prelude.{
  ◌≡◌, refl, sym, ◌∙◌, subst, ap, ◌↔◌, inl, inr, true, Option, none, some, List, [], ◌∷◌, map, In,
  arith,
}
use access_controller.Text.{Text, bytes, contains}
use access_controller.Tuple.{
  SubjectSet, Subject, subject_id, subject_set, InternalRelationTuple, subject_string,
  set_from_string, subject_from_string,
}
use access_controller.Tuple.Strings.{
  IsPlainSubject, subject_from_string-subject_string, set_from_string_iff,
}
use access_controller.Store.{Row, prepend, read_sets, as_tuple, read_tuples}
use access_controller.Store.Rows.{Like, IsProper, IsEncoded}
use access_controller.Store.Patterns.{Like-contains}

-- A row's subject is read back as the subject that it was written for.
read_subject : (r : Row) (e : IsEncoded r) → subject_from_string r.subject ≡ some e.subject
read_subject r e = rw e.printed (subject_from_string-subject_string e.subject e.plain)

-- … and as no other.
pub subject_of_row :
    (r : Row) (u : Subject)
    → IsEncoded r
    → subject_from_string r.subject ≡ some u
    → (r.subject ≡ subject_string u) × IsPlainSubject u × IsProper u
subject_of_row r u e h =
    let one : e.subject ≡ u = cc (read_subject r e) in
    (rw (← one) e.printed, subst IsPlainSubject one e.plain, subst IsProper one e.proper)

pub set_of_row :
    (r : Row) (s : SubjectSet)
    → IsEncoded r
    → subject_from_string r.subject ≡ some (subject_set s)
    → set_from_string r.subject ≡ some s
unfolding subject_string
set_of_row r s e h =
    let (printed, plain, proper) = subject_of_row r (subject_set s) e h in
    (set_from_string_iff r.subject s).1 (printed, plain)

has_set :
    (r : Row) (u : Subject)
    → IsPlainSubject u
    → subject_from_string r.subject ≡ some u
    → contains (subject_string u) b'#' ≡ true
    → (s : SubjectSet) × (subject_from_string r.subject ≡ some (subject_set s))
unfolding subject_string
has_set r (subject_id id) plain e has = cc
has_set r (subject_set s) plain e has = (s, e)

-- A row whose subject is like the pattern has a subject set.
pub set_subject :
    (r : Row)
    → IsEncoded r
    → Like (bytes "_%%:_%%#_%%") r.subject
    → (s : SubjectSet) × (subject_from_string r.subject ≡ some (subject_set s))
set_subject r e h =
    let has : contains r.subject b'#' ≡ true =
      Like-contains b'#' (omega arith) (omega arith)
        (inr (inr (inr (inr (inr (inr (inr (inl refl)))))))) h in
    has_set r e.subject e.plain (read_subject r e) (rw e.printed at has)

pub prepend-some :
    {A : Type 0} (o : Option A) (rest : Option (List A)) (xs : List A)
    → prepend o rest ≡ some xs
    → (a : A) × (ys : List A) × (o ≡ some a) × (rest ≡ some ys) × (xs ≡ a ∷ ys)
prepend-some none rest xs e = cc
prepend-some (some a) none xs e = cc
prepend-some (some a) (some ys) xs e = (a, ys, refl, refl, cc)

-- Texts that are all read are read in order.
pub read_sets_lem :
    (texts : List Text)
    → ((s : Text) → In s texts → (t : SubjectSet) × (set_from_string s ≡ some t))
    → (sets : List SubjectSet) × (read_sets (map some texts) ≡ some sets)
      × ((t : SubjectSet) → In t sets ↔ ((s : Text) × In s texts × (set_from_string s ≡ some t)))
unfolding read_sets
read_sets_lem [] all = ([], refl, λ t. (λ m. absurd m, λ (s, m, e). absurd m))
read_sets_lem (s ∷ texts) all =
    let (t, e) = all s (inl refl) in
    let (sets, k, same) = read_sets_lem texts (λ x m. all x (inr m)) in
    (
      t ∷ sets,
      rw e (rw k refl),
      λ v. (
        λ m. elim m [
          | inl p ↦ (s, inl refl, rw p e)
          | inr m' ↦ let (x, i, f) = (same v).0 m' in (x, inr i, f)
        ],
        λ (x, i, f). elim i [
          | inl p ↦ inl (let f' : set_from_string s ≡ some v = rw (← p) f in cc)
          | inr i' ↦ inr ((same v).1 (x, i', f))
        ],
      ),
    )

as_tuple_inv :
    (namespace : Text) (r : Row) (o : Option Subject) (t : InternalRelationTuple)
    → as_tuple namespace r o ≡ some t
    → o ≡ some t.subject
unfolding read_tuples
as_tuple_inv namespace r none t e = cc
as_tuple_inv namespace r (some u) t e = cc

-- The subjects of the tuples that were read.
pub read_tuples_lem :
    (namespace : Text) (rs : List Row) (listed : List InternalRelationTuple) (u : Subject)
    → read_tuples namespace (map some rs) ≡ some listed
    → ((t : InternalRelationTuple) × In t listed × (t.subject ≡ u))
      ↔ ((r : Row) × In r rs × (subject_from_string r.subject ≡ some u))
unfolding read_tuples
read_tuples_lem namespace [] listed u e =
    let none_left : listed ≡ [] = cc in
    (λ (t, m, k). absurd (subst (In t) none_left m), λ (r, m, k). absurd m)
read_tuples_lem namespace (r ∷ rs) listed u e =
    let (t, ts, a, b, j) = prepend-some _ _ listed e in
    let rest = read_tuples_lem namespace rs ts u b in
    let own = as_tuple_inv namespace r _ t a in
    (
      λ (x, m, k). elim (subst (In x) j m) [
        | inl p ↦
            (r, inl refl, own ∙ ap some (ap (λ (y : InternalRelationTuple). y.subject) (sym p) ∙ k))
        | inr m' ↦ let (y, i, f) = rest.0 (x, m', k) in (y, inr i, f)
      ],
      λ (y, i, f). elim i [
        | inl p ↦ (
          t,
          subst (In t) (sym j) (inl refl),
          let f' : subject_from_string r.subject ≡ some u = rw (← p) f in cc,
        )
        | inr i' ↦ let (x, m, k) = rest.1 (y, i', f) in (x, subst (In x) (sym j) (inr m), k)
      ],
    )
