-- ===== src/Choose/Common.antt =====
-- Which timestamps the loops of chooseNamespaceConfigSnapshot collect.
use access_controller.Prelude.{
  ◌≡◌, ◌≢◌, ◌↔◌, ◌⊎◌, inl, inr, true, false, [], ◌∷◌, arith, Bool-cases, In,
}
use access_controller.Map.{Map, put, keys}
use access_controller.Map.Entries.{keys-put, put-keys_old, put-keys_new}
use access_controller.Text.{Text, text_eq, text_eq_iff, text_key}
use access_controller.Time.{Time, equal, time_key}
use access_controller.Snapshots.{Snapshots}
use access_controller.Choose.{TimeSet, match_snapshots, match_peers, match_all, add_all}

-- Some snapshot has this instant.
abbrev pub HasInstant : Time → Snapshots → Type 0
HasInstant t [] = ⊥
HasInstant t ((u, config) ∷ rest) = (t.instant ≡ u.instant) ⊎ HasInstant t rest

-- Some peer other than `me` has a snapshot with this instant.
abbrev pub IsHeldByOther : Text → Time → Map Text Snapshots → Type 0
IsHeldByOther me t [] = ⊥
IsHeldByOther me t ((peer, snapshots) ∷ rest) =
    ((peer ≢ me) × HasInstant t snapshots) ⊎ IsHeldByOther me t rest

match_snapshots_sound :
    (t : Time) (ss : Snapshots) (common : TimeSet) (x : Time)
    → In x (keys (match_snapshots t ss common))
    → In x (keys common) ⊎ ((x ≡ t) × HasInstant t ss)
unfolding match_snapshots
match_snapshots_sound t [] common x h = inl h
match_snapshots_sound t ((u, config) ∷ ss) common x h = elim (Bool-cases (equal t u)) [
  | inl e ↦
      ground
        (arith, match_snapshots_sound t ss (put common t tt) x (rw e at h), keys-put common t tt x)
  | inr e ↦ ground (arith, match_snapshots_sound t ss common x (rw e at h))
]

match_snapshots_old :
    (t : Time) (ss : Snapshots) (common : TimeSet) (x : Time)
    → In x (keys common)
    → In x (keys (match_snapshots t ss common))
unfolding match_snapshots
match_snapshots_old t [] common x h = h
match_snapshots_old t ((u, config) ∷ ss) common x h =
    match_snapshots_old t ss _ x (elim (Bool-cases (equal t u)) [
      | inl e ↦ rw e (put-keys_old common t tt x h)
      | inr e ↦ rw e h
    ])

match_snapshots_new :
    (t : Time) (ss : Snapshots) (common : TimeSet)
    → HasInstant t ss
    → In t (keys (match_snapshots t ss common))
unfolding match_snapshots
match_snapshots_new t [] common h = absurd h
match_snapshots_new t ((u, config) ∷ ss) common (inl e) =
    match_snapshots_old t ss _ t
      (let same : equal t u ≡ true = ground arith in rw same (put-keys_new common t tt))
match_snapshots_new t ((u, config) ∷ ss) common (inr h) = match_snapshots_new t ss _ h

match_peers_sound :
    (me : Text) (t : Time) (peers : Map Text Snapshots) (common : TimeSet) (x : Time)
    → In x (keys (match_peers me t peers common))
    → In x (keys common) ⊎ ((x ≡ t) × IsHeldByOther me t peers)
unfolding match_peers
match_peers_sound me t [] common x h = inl h
match_peers_sound me t ((peer, ss) ∷ rest) common x h = elim (Bool-cases (text_eq peer me)) [
  | inl e ↦ ground (arith, match_peers_sound me t rest common x (rw e at h))
  | inr e ↦
      let other : peer ≢ me = λ p. cc (e, (text_eq_iff peer me).1 p) in
      elim (match_peers_sound me t rest (match_snapshots t ss common) x (rw e at h)) [
        | inl k ↦ elim (match_snapshots_sound t ss common x k) [
          | inl old ↦ inl old
          | inr (p, held) ↦ inr (p, inl (other, held))
        ]
        | inr (p, held) ↦ inr (p, inr held)
      ]
]

match_peers_old :
    (me : Text) (t : Time) (peers : Map Text Snapshots) (common : TimeSet) (x : Time)
    → In x (keys common)
    → In x (keys (match_peers me t peers common))
unfolding match_peers
match_peers_old me t [] common x h = h
match_peers_old me t ((peer, ss) ∷ rest) common x h =
    match_peers_old me t rest _ x (elim (Bool-cases (text_eq peer me)) [
      | inl e ↦ rw e h
      | inr e ↦ rw e (match_snapshots_old t ss common x h)
    ])

match_peers_new :
    (me : Text) (t : Time) (peers : Map Text Snapshots) (common : TimeSet)
    → IsHeldByOther me t peers
    → In t (keys (match_peers me t peers common))
unfolding match_peers
match_peers_new me t [] common h = absurd h
match_peers_new me t ((peer, ss) ∷ rest) common (inl (other, held)) =
    match_peers_old me t rest _ t (
      let e : text_eq peer me ≡ false = ground (arith, text_eq_iff peer me) in
      rw e (match_snapshots_new t ss common held))
match_peers_new me t ((peer, ss) ∷ rest) common (inr h) = match_peers_new me t rest _ h

match_all_sound :
    (me : Text) (peers : Map Text Snapshots) (ss : Snapshots) (common : TimeSet) (x : Time)
    → In x (keys (match_all me peers ss common))
    → In x (keys common) ⊎ (In x (keys ss) × IsHeldByOther me x peers)
unfolding match_all
match_all_sound me peers [] common x h = inl h
match_all_sound me peers ((t, config) ∷ ss) common x h =
    elim (match_all_sound me peers ss (match_peers me t peers common) x h) [
      | inl k ↦ elim (match_peers_sound me t peers common x k) [
        | inl old ↦ inl old
        | inr (p, held) ↦ inr (inl p, rw p held)
      ]
      | inr (k, held) ↦ inr (inr k, held)
    ]

match_all_old :
    (me : Text) (peers : Map Text Snapshots) (ss : Snapshots) (common : TimeSet) (x : Time)
    → In x (keys common)
    → In x (keys (match_all me peers ss common))
unfolding match_all
match_all_old me peers [] common x h = h
match_all_old me peers ((t, config) ∷ ss) common x h =
    match_all_old me peers ss _ x (match_peers_old me t peers common x h)

match_all_new :
    (me : Text) (peers : Map Text Snapshots) (ss : Snapshots) (common : TimeSet) (x : Time)
    → In x (keys ss)
    → IsHeldByOther me x peers
    → In x (keys (match_all me peers ss common))
unfolding match_all
match_all_new me peers [] common x h held = absurd h
match_all_new me peers ((t, config) ∷ ss) common x (inl e) held =
    match_all_old me peers ss _ x (rw e (match_peers_new me t peers common (rw e at held)))
match_all_new me peers ((t, config) ∷ ss) common x (inr h) held =
    match_all_new me peers ss _ x h held

-- With more than one peer the set collected holds exactly the timestamps of the candidate's
-- snapshots whose instant some other peer has too.
pub match_all_iff :
    (me : Text) (peers : Map Text Snapshots) (ss : Snapshots) (x : Time)
    → In x (keys (match_all me peers ss [])) ↔ (In x (keys ss) × IsHeldByOther me x peers)
match_all_iff me peers ss x = (
  λ h. elim (match_all_sound me peers ss [] x h) [ inl old ↦ absurd old | inr k ↦ k ],
  λ h. match_all_new me peers ss [] x h.0 h.1,
)

add_all_sound :
    (ss : Snapshots) (common : TimeSet) (x : Time)
    → In x (keys (add_all ss common))
    → In x (keys common) ⊎ In x (keys ss)
unfolding add_all
add_all_sound [] common x h = inl h
add_all_sound ((t, config) ∷ ss) common x h =
    ground (arith, add_all_sound ss (put common t tt) x h, keys-put common t tt x)

add_all_old :
    (ss : Snapshots) (common : TimeSet) (x : Time)
    → In x (keys common)
    → In x (keys (add_all ss common))
unfolding add_all
add_all_old [] common x h = h
add_all_old ((t, config) ∷ ss) common x h =
    add_all_old ss (put common t tt) x (put-keys_old common t tt x h)

add_all_new :
    (ss : Snapshots) (common : TimeSet) (x : Time)
    → In x (keys ss)
    → In x (keys (add_all ss common))
unfolding add_all
add_all_new [] common x h = absurd h
add_all_new ((t, config) ∷ ss) common x (inl e) =
    add_all_old ss _ x (rw e (put-keys_new common t tt))
add_all_new ((t, config) ∷ ss) common x (inr h) = add_all_new ss _ x h

-- With one peer the set collected holds all of its timestamps.
pub add_all_iff : (ss : Snapshots) (x : Time) → In x (keys (add_all ss [])) ↔ In x (keys ss)
add_all_iff ss x = (
  λ h. elim (add_all_sound ss [] x h) [ inl old ↦ absurd old | inr k ↦ k ],
  λ h. add_all_new ss [] x h,
)
