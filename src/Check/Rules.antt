-- ===== src/Check/Rules.antt =====
-- checkRewrite and checkLeaf against the meaning of a rule, for calls of `check` that are right.
use access_controller.Prelude.{
  ℕ, zero, suc, ◌≡◌, refl, sym, subst, ◌≢◌, true, false, Option, none, some, List, [], ◌∷◌,
}
use access_controller.Text.{Text}
use access_controller.Config.{
  Rewrite, Child, this, unset_child, computed_subjectset, tuple_to_subjectset, nested,
}
use access_controller.Tuple.{SubjectSet}
use access_controller.Check.{
  TupleReader, Call, object_of, subject_query, followed, tupleset_relation, or_next, check_subjects,
  check_all, check_direct, check_leaf,
}
use access_controller.Check.Types.{Query, Outcome, ok, err}
use access_controller.Check.Semantics.{
  Rules, Granted, ChildHolds, direct, indirect, computed, through, SomeSubject, here, there,
}

-- A Boolean result is the truth value of `P`; an error, or no result yet, says nothing.
abbrev pub Decides : Type 0 → Option Outcome → Type 0
Decides P (some (ok true)) = P
Decides P (some (ok false)) = ¬ P
Decides P (some (err e)) = Unit
Decides P none = Unit

pub Decides-iff :
    {P Q : Type 0} (o : Option Outcome) → (P → Q) → (Q → P) → Decides P o → Decides Q o
Decides-iff (some (ok true)) f g h = f h
Decides-iff (some (ok false)) f g h = λ q. h (g q)
Decides-iff (some (err e)) f g h = tt
Decides-iff none f g h = tt

-- From the Boolean results on: what a true and a false result have to show.
pub Decides-of :
    {P : Type 0} (o : Option Outcome)
    → (o ≡ some (ok true) → P)
    → (o ≡ some (ok false) → ¬ P)
    → Decides P o
Decides-of (some (ok true)) f g = f refl
Decides-of (some (ok false)) f g = g refl
Decides-of (some (err e)) f g = tt
Decides-of none f g = tt

pub some_inj : {A : Type 0} (a b : A) → some a ≡ some b → a ≡ b
some_inj a b e = cc

module _ (tuples : TupleReader) (rules : Rules) (call : Call)
    (right : (q : Query) → Decides (Granted tuples rules q) (call q)) where
  next-Decides :
      (query : SubjectSet → Query) (s : SubjectSet) (ss : List SubjectSet) (o rest : Option Outcome)
      → Decides (Granted tuples rules (query s)) o
      → Decides (SomeSubject tuples rules query ss) rest
      → Decides (SomeSubject tuples rules query (s ∷ ss)) (or_next o rest)
  next-Decides query s ss none rest h k = tt
  next-Decides query s ss (some (err e)) rest h k = tt
  next-Decides query s ss (some (ok true)) rest h k = here h
  next-Decides query s ss (some (ok false)) rest h k = Decides-iff rest there back k
    where
      back : SomeSubject tuples rules query (s ∷ ss) → SomeSubject tuples rules query ss
      back (here g) = absurd (h g)
      back (there m) = m

  not-SomeSubject-nil : (query : SubjectSet → Query) → ¬ SomeSubject tuples rules query []
  not-SomeSubject-nil query h = elim h [ ]

  subjects_decide :
      (query : SubjectSet → Query) (ss : List SubjectSet)
      → Decides (SomeSubject tuples rules query ss) (check_subjects call query ss)
  unfolding check_subjects
  subjects_decide query [] = not-SomeSubject-nil query
  subjects_decide query (s ∷ ss) =
      next-Decides query s ss (call (query s)) _ (right (query s)) (subjects_decide query ss)

  -- Some subject that was read is granted.
  abbrev SomeOf : (SubjectSet → Query) → Option (List SubjectSet) → Type 0
  SomeOf query sets = (ss : List SubjectSet) × (sets ≡ some ss) × SomeSubject tuples rules query ss

  all-Decides :
      (query : SubjectSet → Query) (sets : Option (List SubjectSet))
      → Decides (SomeOf query sets) (check_all call query sets)
  unfolding check_leaf
  all-Decides query none = tt
  all-Decides query (some ss) =
      Decides-iff (check_subjects call query ss) (λ m. (ss, refl, m))
        (λ (xs, e, m). subst (SomeSubject tuples rules query) (sym (some_inj ss xs e)) m)
        (subjects_decide query ss)

  abbrev direct_sets : Query → Option (List SubjectSet)
  direct_sets q = tuples.subject_sets (object_of q) (q.relation ∷ [])

  -- With no row for the user itself only the subject sets count.
  indirect_inv :
      (q : Query)
      → tuples.row_count (object_of q) (q.relation ∷ []) q.user ≡ some zero
      → ChildHolds tuples rules this q
      → SomeOf (λ s. subject_query s s.relation q.user) (direct_sets q)
  indirect_inv q e (direct d) = cc
  indirect_inv q e (indirect {ss = ss} p m) = (ss, p, m)

  direct-Decides :
      (q : Query) (rows : Option ℕ)
      → tuples.row_count (object_of q) (q.relation ∷ []) q.user ≡ rows
      → Decides (ChildHolds tuples rules this q) (check_direct call tuples q rows)
  unfolding check_leaf
  direct-Decides q none e = tt
  direct-Decides q (some (suc n)) e = direct e
  direct-Decides q (some zero) e =
      Decides-iff (check_all call (λ s. subject_query s s.relation q.user) (direct_sets q))
        (λ (ss, p, m). indirect p m) (indirect_inv q e)
        (all-Decides (λ s. subject_query s s.relation q.user) (direct_sets q))

  computed_inv :
      (q : Query) (relation : Text)
      → ChildHolds tuples rules (computed_subjectset relation) q
      → Granted tuples rules (record q { relation = relation })
  computed_inv q relation (computed g) = g

  through_inv :
      (q : Query) (tupleset : Option Text) (c : Text)
      → ChildHolds tuples rules (tuple_to_subjectset tupleset c) q
      → SomeOf
          (λ s. subject_query s (followed c s) q.user)
          (tuples.subject_sets (object_of q) (tupleset_relation tupleset ∷ []))
  through_inv q tupleset c (through {ss = ss} p m) = (ss, p, m)

  pub leaf-Decides :
      (q : Query) (c : Child)
      → ((r : Rewrite) → c ≢ nested r)
      → Decides (ChildHolds tuples rules c q) (check_leaf call tuples c q)
  unfolding check_leaf
  leaf-Decides q this n =
      direct-Decides q (tuples.row_count (object_of q) (q.relation ∷ []) q.user) refl
  leaf-Decides q unset_child n = λ h. elim h [ ]
  leaf-Decides q (computed_subjectset relation) n =
      Decides-iff (call (record q { relation = relation })) computed (computed_inv q relation)
        (right (record q { relation = relation }))
  leaf-Decides q (tuple_to_subjectset tupleset c) n =
      Decides-iff
        (check_all call (λ s. subject_query s (followed c s) q.user)
          (tuples.subject_sets (object_of q) (tupleset_relation tupleset ∷ [])))
        (λ (ss, p, m). through p m) (through_inv q tupleset c)
        (all-Decides (λ s. subject_query s (followed c s) q.user)
          (tuples.subject_sets (object_of q) (tupleset_relation tupleset ∷ [])))
  leaf-Decides q (nested r) n = absurd (n r refl)
