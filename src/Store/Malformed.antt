-- ===== src/Store/Malformed.antt =====
-- A stored subject that is not the text form of a subject set but is selected as one.
use access_controller.Prelude.{◌≡◌, refl, inl, inr, Option, none, some, List, [], ◌∷◌, map, In}
use access_controller.Text.{Text, bytes}
use access_controller.Tuple.{Object, set_from_string}
use access_controller.Store.{Row, Database, prepend, read_sets, sets_query, subject_sets}
use access_controller.Store.Rows.{Like, Answers}

prepend-none : {A : Type 0} (o : Option A) → prepend o none ≡ none
prepend-none none = refl
prepend-none (some a) = refl

read_sets-none :
    (texts : List Text) (s : Text)
    → In s texts
    → set_from_string s ≡ none
    → read_sets (map some texts) ≡ none
unfolding read_sets
read_sets-none [] s m e = absurd m
read_sets-none (x ∷ texts) s (inl same) e =
    let own : set_from_string x ≡ none = rw (← same) e in rw own refl
read_sets-none (x ∷ texts) s (inr m) e =
    rw (read_sets-none texts s m e) (prepend-none (set_from_string x))

-- If the subject of one tuple of a relation is like the pattern of subject sets but is not the text
-- form of one, such as the id "a:b#c#d", then SubjectSets fails for the object and the relations,
-- whatever the other tuples are.
pub subject_sets-fails :
    (db : Database) (rows : Text → List Row) (object : Object) (relations : List Text) (r : Row)
    → Answers db rows
    → In r (rows object.namespace)
    → r.object ≡ object.id
    → In r.relation relations
    → Like (bytes "_%%:_%%#_%%") r.subject
    → set_from_string r.subject ≡ none
    → subject_sets db object relations ≡ none
unfolding subject_sets
subject_sets-fails db rows object relations r answers i o m like e =
    let (texts, k, are) = answers.all_subjects (sets_query object relations) in
    rw k (read_sets-none texts r.subject ((are r.subject).1 (r, i, (o, m, like), refl)) e)
