-- ===== src/Choose/Search.antt =====
-- The two search loops of chooseNamespaceConfigSnapshot: the peer with the fewest snapshots, and the
-- latest timestamp.
use access_controller.Prelude.{
  ◌≤◌, ◌≡◌, refl, ◌∙◌, ◌⊎◌, inl, inr, [], ◌∷◌, arith, ltb, if◌then◌else◌, Bool-cases, length, In,
  All,
}
use access_controller.Map.{Map, keys}
use access_controller.Text.{Text}
use access_controller.Time.{Time, after}
use access_controller.Snapshots.{Snapshots}
use access_controller.Choose.{Candidate, smallest, TimeSet, latest}

-- The candidate is an entry of the list, with its size.
abbrev pub IsEntry : Candidate → Map Text Snapshots → Type 0
IsEntry c peers = In (c.peer, c.snapshots) peers × (c.min ≡ length c.snapshots)

abbrev next_candidate : Candidate → Text → Snapshots → Candidate
next_candidate c peer ss =
    if ltb (length ss) c.min then record { min = length ss; peer = peer; snapshots = ss } else c

next_candidate_cases :
    (c : Candidate) (peer : Text) (ss : Snapshots)
    → (next_candidate c peer ss ≡ c)
      ⊎ (next_candidate c peer ss ≡ record { min = length ss; peer = peer; snapshots = ss })
next_candidate_cases c peer ss = elim (Bool-cases (ltb (length ss) c.min)) [
  | inl e ↦ inr (rw e)
  | inr e ↦ inl (rw e)
]

head-IsEntry :
    (c : Candidate) (peer : Text) (ss : Snapshots) (rest : Map Text Snapshots)
    → c ≡ record { min = length ss; peer = peer; snapshots = ss }
    → IsEntry c ((peer, ss) ∷ rest)
head-IsEntry c peer ss rest e = rw e (inl refl, refl)

pub smallest-IsEntry :
    (c : Candidate) (peers : Map Text Snapshots)
    → (smallest c peers ≡ c) ⊎ IsEntry (smallest c peers) peers
unfolding smallest
smallest-IsEntry c [] = inl refl
smallest-IsEntry c ((peer, ss) ∷ rest) = elim (smallest-IsEntry (next_candidate c peer ss) rest) [
  | inl same ↦ elim (next_candidate_cases c peer ss) [
    | inl old ↦ inl (same ∙ old)
    | inr new ↦ inr (head-IsEntry _ peer ss rest (same ∙ new))
  ]
  | inr (k, n) ↦ inr (inr k, n)
]

next_candidate_min :
    (c : Candidate) (peer : Text) (ss : Snapshots)
    → ((next_candidate c peer ss).min ≤ c.min) × ((next_candidate c peer ss).min ≤ length ss)
next_candidate_min c peer ss = ground arith

pub smallest_min :
    (c : Candidate) (peers : Map Text Snapshots)
    → ((smallest c peers).min ≤ c.min) × All (λ p. (smallest c peers).min ≤ length p.1) peers
unfolding smallest
smallest_min c [] = (omega arith, tt)
smallest_min c ((peer, ss) ∷ rest) =
    let (below, each) = smallest_min (next_candidate c peer ss) rest in
    let (old, new) = next_candidate_min c peer ss in (omega arith, (omega arith, each))

abbrev later_of : Time → Time → Time
later_of t selected = if after t selected then t else selected

later_of_cases : (t selected : Time) → (later_of t selected ≡ selected) ⊎ (later_of t selected ≡ t)
later_of_cases t selected = elim (Bool-cases (after t selected)) [
  | inl e ↦ inr (rw e)
  | inr e ↦ inl (rw e)
]

later_of_max :
    (t selected : Time)
    → (selected.instant ≤ (later_of t selected).instant)
      × (t.instant ≤ (later_of t selected).instant)
later_of_max t selected = ground arith

pub latest-In :
    (selected : Time) (m : TimeSet)
    → (latest selected m ≡ selected) ⊎ In (latest selected m) (keys m)
unfolding latest
latest-In selected [] = inl refl
latest-In selected ((t, u) ∷ m) = elim (latest-In (later_of t selected) m) [
  | inl same ↦ elim (later_of_cases t selected) [
    | inl old ↦ inl (same ∙ old)
    | inr new ↦ inr (inl (same ∙ new))
  ]
  | inr k ↦ inr (inr k)
]

pub latest_max :
    (selected : Time) (m : TimeSet)
    → (selected.instant ≤ (latest selected m).instant)
      × All (λ t. t.instant ≤ (latest selected m).instant) (keys m)
unfolding latest
latest_max selected [] = (omega arith, tt)
latest_max selected ((t, u) ∷ m) =
    let (above, each) = latest_max (later_of t selected) m in
    let (old, new) = later_of_max t selected in (omega arith, (omega arith, each))
