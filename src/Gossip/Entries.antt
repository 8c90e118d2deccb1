-- ===== src/Gossip/Entries.antt =====
-- Merging encoded snapshots: what a store holds afterwards at each key.
use access_controller.Prelude.{
  ◌≡◌, refl, sym, subst, In-map, ◌∙◌, ap, Bool, true, false, ◌&&◌, Option, none, some, [], ◌∷◌,
  Option-cases, if◌then◌else◌, inl, inr, In, All,
}
use access_controller.Map.{Map, get, keys, Key, HasUniqueKeys, entry, In-of_get}
use access_controller.Text.{Text, text_eq, text_eq_iff, text_key}
use access_controller.Time.{Time, time_eq, time_eq_iff, time_key, round_utc}
use access_controller.Config.{NamespaceConfig}
use access_controller.Snapshots.{ConfigStore, get_snapshot}
use access_controller.Snapshots.Laws.{get_snapshot-set_snapshot}
use access_controller.Gossip.{Codec, merge_config, merge_snapshots, merge_namespaces}

-- The first value, or else the second.
abbrev pub or_else : Option NamespaceConfig → Option NamespaceConfig → Option NamespaceConfig
or_else none y = y
or_else (some x) y = some x

-- The snapshot of a namespace at a timestamp, in the encoded form that metadata has.
abbrev pub entry_of : {B : Type 0} → Option (Map Time B) → Time → Option B
entry_of none u = none
entry_of (some snapshots) u = get snapshots u

-- Each timestamp is in UTC, with no monotonic reading, and stands once.
abbrev pub AreTimes : {V : Type 0} → Map Time V → Type 0
AreTimes snapshots = HasUniqueKeys snapshots × All (λ e. round_utc e.0 ≡ e.0) snapshots

-- The namespaces, and the timestamps of each, stand once.
abbrev pub IsSendable : {V : Type 0} → Map Text (Map Time V) → Type 0
IsSendable namespaces = HasUniqueKeys namespaces × All (λ e. AreTimes e.1) namespaces

pub fresh_key :
    {K V : Type 0} ⦃key : Key K⦄ (k l : K) (rest : Map K V)
    → ¬ In k (keys rest)
    → k ≡ l
    → get rest l ≡ none
fresh_key k l rest fresh e = elim (Option-cases (get rest l)) [
  | inl h ↦ h
  | inr (v, h) ↦
      let there : In l (keys rest) = In-map (λ e. e.0) (l, v) rest (In-of_get rest l v h) in
      absurd (fresh (subst (λ t. In t (keys rest)) (sym e) there))
]

pub entry_of_if :
    {B : Type 0} (b : Bool) (snapshots : Map Time B) (o : Option (Map Time B)) (u : Time)
    → entry_of (if b then some snapshots else o) u ≡ (if b then get snapshots u else entry_of o u)
entry_of_if true snapshots o u = refl
entry_of_if false snapshots o u = refl

-- One namespace more, as for one entry more.
space_lem :
    (peer space : Bool) (held old new below above : Option NamespaceConfig)
    → new ≡ (if peer && space then or_else held old else old)
    → (space ≡ true → below ≡ none)
    → above ≡ (if space then held else below)
    → (if peer then or_else below new else new) ≡ (if peer then or_else above old else old)
space_lem false space held old new below above e f g = e
space_lem true false held old new below above e f g = rw (e, g) refl
space_lem true true held old new below above e f g = rw (e, g, f refl) refl

same_if : (b : Bool) (x : Option NamespaceConfig) → x ≡ (if b then x else x)
same_if true x = refl
same_if false x = refl

and_assoc : (a b c : Bool) → (a && (b && c)) ≡ ((a && b) && c)
and_assoc true b c = refl
and_assoc false b c = refl

module _ {B M : Type 0} (codec : Codec B M) where
  abbrev pub decoded : Option B → Option NamespaceConfig
  decoded none = none
  decoded (some b) = codec.decode_config b

  pub decoded_if :
      (c : Bool) (b : B) (o : Option B)
      → decoded (if c then some b else o) ≡ (if c then codec.decode_config b else decoded o)
  decoded_if true b o = refl
  decoded_if false b o = refl

  above_if :
      (c : Bool) (snapshots : Map Time B) (o : Option (Map Time B)) (u : Time)
      → decoded (entry_of (if c then some snapshots else o) u)
        ≡ (if c then decoded (get snapshots u) else decoded (entry_of o u))
  above_if true snapshots o u = refl
  above_if false snapshots o u = refl

  merge_config_lem :
      (store : ConfigStore) (peer namespace : Text) (ts : Time) (o : Option NamespaceConfig)
      (p n : Text) (u : Time)
      → round_utc ts ≡ ts
      → get_snapshot (merge_config codec store peer namespace ts o) p n u ≡ (
          if (text_eq peer p && text_eq namespace n) && time_eq ts u
          then or_else o (get_snapshot store p n u)
          else get_snapshot store p n u)
  unfolding merge_config
  merge_config_lem store peer namespace ts none p n u normal = same_if _ _
  merge_config_lem store peer namespace ts (some config) p n u normal =
      get_snapshot-set_snapshot store peer namespace config ts p n u
      ∙ rw (normal, and_assoc (text_eq peer p) (text_eq namespace n) (time_eq ts u)) refl

  merge_snapshots_lem :
      (store : ConfigStore) (peer namespace : Text) (snapshots : Map Time B) (p n : Text) (u : Time)
      → AreTimes snapshots
      → get_snapshot (merge_snapshots codec store peer namespace snapshots) p n u ≡ (
          if text_eq peer p && text_eq namespace n
          then or_else (decoded (get snapshots u)) (get_snapshot store p n u)
          else get_snapshot store p n u)
  unfolding merge_snapshots get
  merge_snapshots_lem store peer namespace [] p n u ok = same_if _ _
  merge_snapshots_lem store peer namespace ((ts, b) ∷ rest) p n u (entry fresh unique, normal) =
      merge_snapshots_lem (merge_config codec store peer namespace ts (codec.decode_config b)) peer
        namespace rest p n u (unique, normal.1)
      ∙ space_lem (text_eq peer p && text_eq namespace n) (time_eq ts u) (codec.decode_config b) _ _
          (decoded (get rest u)) (decoded (get ((ts, b) ∷ rest) u))
          (merge_config_lem store peer namespace ts (codec.decode_config b) p n u normal.0)
          (λ e. ap decoded (fresh_key ts u rest fresh ((time_eq_iff ts u).0 e)))
          (decoded_if (time_eq ts u) b (get rest u))

  -- Merging namespaces: at each key the decoded entry, or else what was known.
  pub merge_namespaces_lem :
      (store : ConfigStore) (peer : Text) (namespaces : Map Text (Map Time B)) (p n : Text)
      (u : Time)
      → IsSendable namespaces
      → get_snapshot (merge_namespaces codec store peer namespaces) p n u ≡ (
          if text_eq peer p
          then or_else (decoded (entry_of (get namespaces n) u)) (get_snapshot store p n u)
          else get_snapshot store p n u)
  unfolding merge_namespaces get
  merge_namespaces_lem store peer [] p n u ok = same_if _ _
  merge_namespaces_lem store peer ((namespace, snapshots) ∷ rest) p n u
        (entry fresh unique, times) =
      merge_namespaces_lem (merge_snapshots codec store peer namespace snapshots) peer rest p n u
        (unique, times.1)
      ∙ space_lem (text_eq peer p) (text_eq namespace n) (decoded (get snapshots u)) _ _
          (decoded (entry_of (get rest n) u))
          (decoded (entry_of (get ((namespace, snapshots) ∷ rest) n) u))
          (merge_snapshots_lem store peer namespace snapshots p n u times.0)
          (λ e.
            ap (λ o. decoded (entry_of o u))
              (fresh_key namespace n rest fresh ((text_eq_iff namespace n).0 e)))
          (above_if (text_eq namespace n) snapshots (get rest n) u)
