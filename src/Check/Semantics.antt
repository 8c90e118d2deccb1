-- ===== src/Check/Semantics.antt =====
-- The meaning of a check, independent of how it is evaluated: the relations that a user has by the
-- stored tuples and the rewrite rules. There is no fuel, no order and no error in it.
use access_controller.Prelude.{ℕ, suc, ◌≡◌, Option, some, List, [], ◌∷◌}
use access_controller.Text.{Text}
use access_controller.Config.{
  Rewrite, union, intersection, Child, this, computed_subjectset, tuple_to_subjectset, nested,
  Children, nil, cons,
}
use access_controller.Tuple.{SubjectSet}
use access_controller.Check.{TupleReader, object_of, subject_query, followed, tupleset_relation}
use access_controller.Check.Types.{Query}

-- The rule of a relation in a namespace.
abbrev pub Rules : Type 0
Rules = Text → Text → Option Rewrite

module _ (tuples : TupleReader) (rules : Rules) where
  mutual
    pub data Granted : Query → Type 0 where
      by_rule :
          {q : Query} {r : Rewrite} → rules q.namespace q.relation ≡ some r → Holds r q → Granted q

    pub data Holds : Rewrite → Query → Type 0 where
      in_union : {cs : Children} {q : Query} → SomeHolds cs q → Holds (union cs) q
      in_intersection : {cs : Children} {q : Query} → EachHolds cs q → Holds (intersection cs) q

    pub data SomeHolds : Children → Query → Type 0 where
      first : {c : Child} {cs : Children} {q : Query} → ChildHolds c q → SomeHolds (cons c cs) q
      later : {c : Child} {cs : Children} {q : Query} → SomeHolds cs q → SomeHolds (cons c cs) q

    pub data EachHolds : Children → Query → Type 0 where
      end : {q : Query} → EachHolds nil q
      both :
          {c : Child} {cs : Children} {q : Query}
          → ChildHolds c q
          → EachHolds cs q
          → EachHolds (cons c cs) q

    pub data ChildHolds : Child → Query → Type 0 where
      -- a stored tuple names the user
      direct :
          {q : Query} {n : ℕ}
          → tuples.row_count (object_of q) (q.relation ∷ []) q.user ≡ some (suc n)
          → ChildHolds this q
      -- a stored tuple names a subject set that the user is in
      indirect :
          {q : Query} {ss : List SubjectSet}
          → tuples.subject_sets (object_of q) (q.relation ∷ []) ≡ some ss
          → SomeSubject (λ s. subject_query s s.relation q.user) ss
          → ChildHolds this q
      computed :
          {q : Query} {relation : Text}
          → Granted (record q { relation = relation })
          → ChildHolds (computed_subjectset relation) q
      through :
          {q : Query} {tupleset : Option Text} {c : Text} {ss : List SubjectSet}
          → tuples.subject_sets (object_of q) (tupleset_relation tupleset ∷ []) ≡ some ss
          → SomeSubject (λ s. subject_query s (followed c s) q.user) ss
          → ChildHolds (tuple_to_subjectset tupleset c) q
      inner : {q : Query} {r : Rewrite} → Holds r q → ChildHolds (nested r) q

    pub data SomeSubject : (SubjectSet → Query) → List SubjectSet → Type 0 where
      here :
          {query : SubjectSet → Query} {s : SubjectSet} {ss : List SubjectSet}
          → Granted (query s)
          → SomeSubject query (s ∷ ss)
      there :
          {query : SubjectSet → Query} {s : SubjectSet} {ss : List SubjectSet}
          → SomeSubject query ss
          → SomeSubject query (s ∷ ss)
