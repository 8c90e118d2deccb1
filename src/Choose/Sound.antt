-- ===== src/Choose/Sound.antt =====
-- What chooseNamespaceConfigSnapshot returns, against its comment: "the most recent namespace config
-- snapshot that is common to all peers/nodes".
use access_controller.Prelude.{
  ℕ, ◌≤◌, ◌<◌, ◌≡◌, refl, sym, ap, subst, ◌∙◌, ◌↔◌, ◌⊎◌, inl, inr, none, some, [], ◌∷◌, arith, ltb,
  Bool-cases, length, In, All, All-In,
}
use access_controller.Map.{Map, get, keys, HasUniqueKeys, get_of_In, In-of_get, get_of_key}
use access_controller.Text.{Text, text_key}
use access_controller.Time.{Time, zero_time, round_utc, time_key}
use access_controller.Config.{NamespaceConfig}
use access_controller.Snapshots.{Snapshots}
use access_controller.Choose.{
  ConfigSnapshot, Candidate, first_candidate, smallest, TimeSet, common_timestamps, latest,
  lookup_config, select, choose_among,
}
use access_controller.Choose.Common.{IsHeldByOther, match_all_iff, add_all_iff}
use access_controller.Choose.Search.{IsEntry, smallest-IsEntry, smallest_min, latest-In, latest_max}

-- What the store guarantees of a listing: a peer is listed once, timestamps are normalised, and no
-- peer holds more snapshots than an int32 counts.
pub record IsListing (peers : Map Text Snapshots) : Type 0 where
  pub unique : HasUniqueKeys peers
  pub small : All (λ p. length p.1 < 2147483647) peers
  pub normal : All (λ p. All (λ t. round_utc t ≡ t) (keys p.1)) peers

-- The instant of `t` is held by a peer other than `me`, if there is more than one peer.
abbrev pub IsShared : Map Text Snapshots → Text → Time → Type 0
IsShared peers me t = (length peers ≤ 1) ⊎ IsHeldByOther me t peers

common_iff :
    (peers : Map Text Snapshots) (c : Candidate) (t : Time)
    → In t (keys (common_timestamps peers c)) ↔ (In t (keys c.snapshots) × IsShared peers c.peer t)
unfolding common_timestamps
common_iff peers c t = elim (Bool-cases (ltb 1 (length peers))) [
  | inl e ↦ (
    λ h.
        let (k, other) = (match_all_iff c.peer peers c.snapshots t).0 (rw e at h) in (k, inr other),
    λ (k, shared). rw e (
        (match_all_iff c.peer peers c.snapshots t).1
          (k, elim shared [ inl few ↦ absurd (ground arith) | inr other ↦ other ])),
  )
  | inr e ↦ (
    λ h. ((add_all_iff c.snapshots t).0 (rw e at h), inl (ground arith)),
    λ (k, shared). rw e ((add_all_iff c.snapshots t).1 k),
  )
]

-- `owner` is a listed peer with the fewest snapshots, `held`.
pub record IsFewest (peers : Map Text Snapshots) (owner : Text) (held : Snapshots) : Type 0 where
  pub listed : In (owner, held) peers
  pub fewest : All (λ p. length held ≤ length p.1) peers

pub record IsChoice (peers : Map Text Snapshots) (s : ConfigSnapshot) : Type 0 where
  pub owner : Text
  pub held : Snapshots
  pub config : NamespaceConfig
  pub owned : IsFewest peers owner held
  pub stored : In (s.timestamp, config) held
  pub returned : s.config ≡ some config
  pub shared : IsShared peers owner s.timestamp
  pub newest :
      (t : Time) → In t (keys held) → IsShared peers owner t → t.instant ≤ s.timestamp.instant

normal_zero : (t : Time) → t.instant ≡ 0 → round_utc t ≡ t → t ≡ zero_time
unfolding round_utc
normal_zero t z e = sym e ∙ λ i. record { instant = z i; location = 0; monotonic = none }

select-some :
    (peers : Map Text Snapshots) (c : Candidate) (ts : TimeSet) (s : ConfigSnapshot)
    → select peers c ts ≡ some s
    → (t : Time) × In t (keys ts)
      × (s.timestamp ≡ latest zero_time ts)
      × (s.config ≡ lookup_config (get peers c.peer) s.timestamp)
unfolding select
select-some peers c [] s h = cc
select-some peers c ((t, u) ∷ ts) s h = (t, inl refl, ground arith, ground arith)

module _ (p : Text × Snapshots) (ps : Map Text Snapshots) (ok : IsListing (p ∷ ps)) where
  abbrev found : Candidate
  found = smallest first_candidate (p ∷ ps)

  -- A listed peer is found, since each holds fewer snapshots than the starting bound.
  found-IsEntry : IsEntry found (p ∷ ps)
  found-IsEntry = elim (smallest-IsEntry first_candidate (p ∷ ps)) [
    | inl same ↦ absurd (
        omega (
          arith,
          ap (λ (c : Candidate). c.min) same,
          (smallest_min first_candidate (p ∷ ps)).1.0,
          ok.small.0,
        ))
    | inr entry ↦ entry
  ]

  found-IsFewest : IsFewest (p ∷ ps) found.peer found.snapshots
  found-IsFewest = record {
    listed = found-IsEntry.0;
    fewest =
        subst (λ (n : ℕ). All (λ q. n ≤ length q.1) (p ∷ ps)) found-IsEntry.1
          (smallest_min first_candidate (p ∷ ps)).1;
  }

  abbrev common : TimeSet
  common = common_timestamps (p ∷ ps) found

  -- A common timestamp is normalised.
  common_normal : (t : Time) → In t (keys common) → round_utc t ≡ t
  common_normal t h =
      let held =
        All-In {A = Text × Snapshots} (λ q. All (λ x. round_utc x ≡ x) (keys q.1))
          (found.peer, found.snapshots) (p ∷ ps) ok.normal found-IsEntry.0 in
      All-In (λ x. round_utc x ≡ x) t (keys found.snapshots) held
        ((common_iff (p ∷ ps) found t).0 h).0

  -- The latest of the common timestamps is one of them.
  latest-common : (t : Time) → In t (keys common) → In (latest zero_time common) (keys common)
  latest-common t h = elim (latest-In zero_time common) [
    | inl zero ↦
        let most : t.instant ≤ (latest zero_time common).instant =
          All-In (λ x. x.instant ≤ (latest zero_time common).instant) t (keys common)
            (latest_max zero_time common).1 h in
        let none_after : t.instant ≡ 0 = omega (arith, ap (λ (x : Time). x.instant) zero) in
        subst (λ x. In x (keys common)) (normal_zero t none_after (common_normal t h) ∙ sym zero) h
    | inr k ↦ k
  ]

  found-IsChoice :
      (s : ConfigSnapshot) → select (p ∷ ps) found common ≡ some s → IsChoice (p ∷ ps) s
  found-IsChoice s h =
      let (t, k, at, config) = select-some (p ∷ ps) found common s h in
      let (own, shared) =
        (common_iff (p ∷ ps) found s.timestamp).0
          (subst (λ x. In x (keys common)) (sym at) (latest-common t k)) in
      let (c, got) = get_of_key found.snapshots s.timestamp own in
      let whole : get (p ∷ ps) found.peer ≡ some found.snapshots =
        get_of_In (p ∷ ps) found.peer found.snapshots ok.unique found-IsEntry.0 in
      record {
        owner = found.peer;
        held = found.snapshots;
        config = c;
        owned = found-IsFewest;
        stored = In-of_get found.snapshots s.timestamp c got;
        returned = config ∙ (unfold select in rw whole got);
        shared = shared;
        newest = λ x held other. rw at (
            All-In (λ x. x.instant ≤ (latest zero_time common).instant) x (keys common)
              (latest_max zero_time common).1 ((common_iff (p ∷ ps) found x).1 (held, other)));
      }

  -- Nothing is returned only if no timestamp is common.
  select-none : (ts : TimeSet) (t : Time) → select (p ∷ ps) found ts ≡ none → ¬ (In t (keys ts))
  unfolding select
  select-none [] t h k = k
  select-none (x ∷ ts) t h k = cc

-- From a well-formed listing a snapshot that is returned is a choice: its timestamp and its config
-- belong to one listed peer with the fewest snapshots; if there are several peers, some other peer
-- holds the same instant too; and no timestamp of that peer that is shared in this way is later.
pub choose_among-IsChoice :
    (peers : Map Text Snapshots) (s : ConfigSnapshot)
    → IsListing peers
    → choose_among peers ≡ some s
    → IsChoice peers s
unfolding choose_among
choose_among-IsChoice [] s ok h = cc
choose_among-IsChoice (p ∷ ps) s ok h = found-IsChoice p ps ok s h

-- From a well-formed listing with a peer, ErrNoLocalNamespacesDefined is returned only if some peer
-- with the fewest snapshots has no timestamp that another peer shares.
pub choose_among-none :
    (p : Text × Snapshots) (ps : Map Text Snapshots)
    → IsListing (p ∷ ps)
    → choose_among (p ∷ ps) ≡ none
    → (owner : Text) × (held : Snapshots) × IsFewest (p ∷ ps) owner held
      × ((t : Time) → In t (keys held) → ¬ (IsShared (p ∷ ps) owner t))
unfolding choose_among
choose_among-none p ps ok h = (
  (found p ps ok).peer,
  (found p ps ok).snapshots,
  found-IsFewest p ps ok,
  λ t k shared. select-none p ps ok _ t h ((common_iff (p ∷ ps) (found p ps ok) t).1 (k, shared)),
)
