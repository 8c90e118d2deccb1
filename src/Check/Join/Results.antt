-- ===== src/Check/Join/Results.antt =====
-- What the first message says of all the children.
use access_controller.Prelude.{
  ◌≡◌, refl, sym, subst, ap, map, In-map_cases, ◌∙◌, ◌⊎◌, inl, inr, Bool, true, false, not, Option,
  none, some, List, [], ◌∷◌, arith, Bool-cases, In,
}
use access_controller.Check.Types.{Outcome, ok, err}
use access_controller.Check.Join.{Arrival, finished, done, is_decisive, select_first, join}

-- A Boolean result: a child had the decisive one, or all children ended with the other.
abbrev pub IsJustified : Bool → Bool → List Arrival → Type 0
IsJustified decisive b arrivals =
    ((b ≡ decisive) × In (finished (some (ok decisive))) arrivals)
    ⊎ ((b ≡ not decisive)
        × ((o : Option Outcome) → In (finished o) arrivals → o ≡ some (ok (not decisive))))

decisive_eq : (decisive b : Bool) → is_decisive decisive b ≡ true → b ≡ decisive
decisive_eq true b h = h
decisive_eq false b h = ground arith

pub indecisive_eq : (decisive b : Bool) → is_decisive decisive b ≡ false → b ≡ not decisive
indecisive_eq true b h = h
indecisive_eq false b h = ground arith

pub finished_inj : (o p : Option Outcome) → finished o ≡ finished p → o ≡ p
finished_inj o p e = cc

pub In-finished :
    (o : Option Outcome) (os : List (Option Outcome)) → In (finished o) (map finished os) → In o os
In-finished o os h =
    let (p, k, e) = In-map_cases finished (finished o) os h in
    subst (λ x. In x os) (sym (finished_inj o p e)) k

select_first_ok :
    (decisive running : Bool) (arrivals : List Arrival) (b : Bool)
    → select_first decisive running arrivals ≡ some (ok b)
    → ((b ≡ decisive) × In (finished (some (ok decisive))) arrivals)
      ⊎ ((running ≡ false)
          × (b ≡ not decisive)
          × ((o : Option Outcome) → In (finished o) arrivals → o ≡ some (ok (not decisive))))
unfolding select_first
select_first_ok decisive true [] b h = cc
select_first_ok decisive false [] b h = inr (refl, ground arith, λ o k. absurd k)
select_first_ok decisive running (done ∷ rest) b h = cc
select_first_ok decisive running (finished none ∷ rest) b h =
    elim (select_first_ok decisive true rest b h) [
      | inl (e, k) ↦ inl (e, inr k)
      | inr (never, e, all) ↦ cc
    ]
select_first_ok decisive running (finished (some (err e)) ∷ rest) b h = cc
select_first_ok decisive running (finished (some (ok c)) ∷ rest) b h =
    elim (Bool-cases (is_decisive decisive c)) [
      | inl d ↦
          let same : c ≡ decisive = decisive_eq decisive c d in
          let sent : some (ok c) ≡ some (ok b) = rw d at h in inl (cc, inl (rw same))
      | inr d ↦
          let other : c ≡ not decisive = indecisive_eq decisive c d in
          elim (select_first_ok decisive running rest b (rw d at h)) [
            | inl (e, k) ↦ inl (e, inr k)
            | inr (none_runs, e, all) ↦ inr (
              none_runs,
              e,
              λ o k. elim k [
                | inl p ↦ finished_inj o (some (ok c)) p ∙ ap (λ (x : Bool). some (ok x)) other
                | inr k' ↦ all o k'
              ],
            )
          ]
    ]

-- Whatever the order of arrival, a Boolean that checkRewrite returns is justified.
pub join_ok :
    (decisive : Bool) (arrivals : List Arrival) (b : Bool)
    → join decisive arrivals ≡ some (ok b)
    → IsJustified decisive b arrivals
unfolding join
join_ok decisive arrivals b h = elim (select_first_ok decisive false arrivals b h) [
  | inl k ↦ inl k
  | inr (none_runs, e, all) ↦ inr (e, all)
]
