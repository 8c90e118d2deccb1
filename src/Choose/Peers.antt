-- ===== src/Choose/Peers.antt =====
-- The choice of chooseNamespaceConfigSnapshot in a cluster: from the store, with two peers, and with
-- three.
use access_controller.Prelude.{
  ◌≤◌, ◌<◌, ◌≡◌, refl, sym, ap, ◌∙◌, ◌≢◌, inl, inr, true, false, some, [], ◌∷◌, arith, ltb,
  Bool-cases, length, In, All,
}
use access_controller.Map.{Map, get, put, keys, beq_refl, beq_ne}
use access_controller.Text.{Text, text_key}
use access_controller.Time.{Time, equal, after, zero_time, time_key}
use access_controller.Config.{NamespaceConfig}
use access_controller.Snapshots.{Snapshots, ConfigStore, list_snapshots}
use access_controller.Snapshots.Invariant.{
  IsValid, list_snapshots-HasUniqueKeys, list_snapshots-normal,
}
use access_controller.Choose.{
  ConfigSnapshot, smallest, match_snapshots, match_peers, match_all, common_timestamps, latest,
  select, choose_among, choose,
}
use access_controller.Choose.Common.{HasInstant}
use access_controller.Choose.Sound.{IsListing, IsShared, IsChoice, choose_among-IsChoice}

-- From a well-formed store in which no peer holds 2^31 - 1 snapshots of the namespace, a snapshot
-- that is returned is a choice: its timestamp and its config belong to one listed peer with the
-- fewest snapshots; if there are several peers, some other peer holds the same instant; and no
-- timestamp of that peer that is shared in this way is later.
pub choose-IsChoice :
    (store : ConfigStore) (namespace : Text) (s : ConfigSnapshot)
    → IsValid store
    → All (λ p. length p.1 < 2147483647) (list_snapshots store namespace)
    → choose store namespace ≡ some s
    → IsChoice (list_snapshots store namespace) s
unfolding choose
choose-IsChoice store namespace s ok small h =
    choose_among-IsChoice (list_snapshots store namespace) s
      (record {
        unique = list_snapshots-HasUniqueKeys store namespace ok.unique;
        small = small;
        normal = list_snapshots-normal store namespace ok.normal;
      })
      h

-- The instant `t` is that of a snapshot of both peers, and no snapshot of both is later.
pub record IsLatestCommon (a b : Snapshots) (t : Time) : Type 0 where
  pub in_left : HasInstant t a
  pub in_right : HasInstant t b
  pub newest : (x : Time) → HasInstant x a → HasInstant x b → x.instant ≤ t.instant

HasInstant-of_key : (t : Time) (m : Snapshots) → In t (keys m) → HasInstant t m
HasInstant-of_key t [] h = h
HasInstant-of_key t ((u, c) ∷ m) (inl e) = inl (rw e)
HasInstant-of_key t ((u, c) ∷ m) (inr h) = inr (HasInstant-of_key t m h)

-- An instant that is held belongs to a key.
key_of_HasInstant :
    (t : Time) (m : Snapshots)
    → HasInstant t m
    → (u : Time) × In u (keys m) × (t.instant ≡ u.instant)
key_of_HasInstant t [] h = absurd h
key_of_HasInstant t ((u, c) ∷ m) (inl e) = (u, inl refl, e)
key_of_HasInstant t ((u, c) ∷ m) (inr h) = let (x, k, e) = key_of_HasInstant t m h in (x, inr k, e)

In-of_entry : (t : Time) (c : NamespaceConfig) (m : Snapshots) → In (t, c) m → In t (keys m)
In-of_entry t c [] h = h
In-of_entry t c ((u, d) ∷ m) (inl e) = inl (ap (λ x. x.0) e)
In-of_entry t c ((u, d) ∷ m) (inr h) = inr (In-of_entry t c m h)

HasInstant-same :
    (t u : Time) (m : Snapshots) → t.instant ≡ u.instant → HasInstant u m → HasInstant t m
HasInstant-same t u [] e h = h
HasInstant-same t u ((v, c) ∷ m) e (inl p) = inl (e ∙ p)
HasInstant-same t u ((v, c) ∷ m) e (inr h) = inr (HasInstant-same t u m e h)

module _ (p q : Text) (a b : Snapshots) (ne : p ≢ q) where
  abbrev pair : Map Text Snapshots
  pair = (p, a) ∷ (q, b) ∷ []

  held_by_second : (t : Time) → IsShared pair p t → HasInstant t b
  held_by_second t (inl few) = absurd (omega arith)
  held_by_second t (inr (inl (other, h))) = absurd (other refl)
  held_by_second t (inr (inr (inl (other, h)))) = h
  held_by_second t (inr (inr (inr h))) = absurd h

  held_by_first : (t : Time) → IsShared pair q t → HasInstant t a
  held_by_first t (inl few) = absurd (omega arith)
  held_by_first t (inr (inl (other, h))) = h
  held_by_first t (inr (inr (inl (other, h)))) = absurd (other refl)
  held_by_first t (inr (inr (inr h))) = absurd h

  module _ (s : ConfigSnapshot) (c : IsChoice pair s) where
    first_owner : c.owner ≡ p → c.held ≡ a → IsLatestCommon a b s.timestamp
    first_owner o h = record {
      in_left =
          HasInstant-of_key s.timestamp a
            (rw (← h) (In-of_entry s.timestamp c.config c.held c.stored));
      in_right = held_by_second s.timestamp (rw o at c.shared);
      newest = λ x l r.
          let (u, k, e) = key_of_HasInstant x a l in
          let top =
            c.newest u (rw h k)
              (rw o (inr (inr (inl (λ z. ne (sym z), HasInstant-same u x b (sym e) r))))) in
          omega arith;
    }

    second_owner : c.owner ≡ q → c.held ≡ b → IsLatestCommon a b s.timestamp
    second_owner o h = record {
      in_left = held_by_first s.timestamp (rw o at c.shared);
      in_right =
          HasInstant-of_key s.timestamp b
            (rw (← h) (In-of_entry s.timestamp c.config c.held c.stored));
      newest = λ x l r.
          let (u, k, e) = key_of_HasInstant x b r in
          let top = c.newest u (rw h k) (rw o (inr (inl (ne, HasInstant-same u x a (sym e) l)))) in
          omega arith;
    }

    choice_common : IsLatestCommon a b s.timestamp
    choice_common = elim c.owned.listed [
      | inl e ↦ first_owner (ap (λ x. x.0) e) (ap (λ x. x.1) e)
      | inr (inl e) ↦ second_owner (ap (λ x. x.0) e) (ap (λ x. x.1) e)
      | inr (inr h) ↦ absurd h
    ]

-- With two peers the timestamp that is chosen is the latest one that both peers hold.
pub choose_among_two :
    (p q : Text) (a b : Snapshots) (s : ConfigSnapshot)
    → p ≢ q
    → IsListing ((p, a) ∷ (q, b) ∷ [])
    → choose_among ((p, a) ∷ (q, b) ∷ []) ≡ some s
    → IsLatestCommon a b s.timestamp
choose_among_two p q a b s ne ok h = choice_common p q a b ne s (choose_among-IsChoice _ s ok h)

match_snapshots_absent :
    (t : Time) (m : Snapshots) (common : Map Time (Unit {0}))
    → ¬ HasInstant t m
    → match_snapshots t m common ≡ common
unfolding match_snapshots
match_snapshots_absent t [] common h = refl
match_snapshots_absent t ((u, c) ∷ m) common h = elim (Bool-cases (equal t u)) [
  | inl e ↦ absurd (h (inl (ground arith)))
  | inr e ↦ rw e (match_snapshots_absent t m common (λ k. h (inr k)))
]

-- With three peers the timestamp need not be common: if the first two hold one snapshot each, at
-- the instant `t`, and the third holds snapshots but none at `t`, then `t` is chosen all the same.
pub choose_among_three :
    (p q r : Text) (x y : NamespaceConfig) (t : Time) (c : Snapshots)
    → p ≢ q
    → p ≢ r
    → 0 < t.instant
    → 0 < length c
    → ¬ HasInstant t c
    → choose_among ((p, (t, x) ∷ []) ∷ (q, (t, y) ∷ []) ∷ (r, c) ∷ [])
      ≡ some (record { config = some x; timestamp = t })
unfolding choose_among smallest common_timestamps match_all match_peers match_snapshots select
    latest get put
choose_among_three p q r x y t c pq pr pos more absent =
    let first : ltb (length c) 1 ≡ false = ground arith in
    let same : equal t t ≡ true = ground arith in
    let late : after t zero_time ≡ true = ground arith in
    rw (
      first,
      beq_refl p,
      beq_ne q p (λ e. pq (sym e)),
      same,
      beq_ne r p (λ e. pr (sym e)),
      match_snapshots_absent t c ((t, tt) ∷ []) absent,
      late,
      beq_refl p,
      beq_refl t,
    )
