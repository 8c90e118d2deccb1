-- ===== src/Gossip/Sent.antt =====
-- The metadata that LocalState serializes: its keys, and its entry at each of them.
use access_controller.Prelude.{
  ◌≡◌, refl, subst, ap, ◌⊎◌, Bool-cases, Bool, true, false, Option, none, some, [], ◌∷◌,
  if◌then◌else◌, inl, inr, In,
}
use access_controller.Map.{Map, get, keys, empty, entry}
use access_controller.Text.{Text, text_eq, text_eq_iff, text_key}
use access_controller.Time.{Time, time_key}
use access_controller.Config.{NamespaceConfig}
use access_controller.Snapshots.{Snapshots, Namespaces}
use access_controller.Gossip.{Codec, serialize_snapshots, keep_some, serialize}
use access_controller.Gossip.Entries.{AreTimes, IsSendable, entry_of, fresh_key, entry_of_if}

module _ {B M : Type 0} (codec : Codec B M) where
  abbrev pub sent_as : Option B → NamespaceConfig → Option NamespaceConfig
  sent_as none config = none
  sent_as (some b) config = some config

  -- What is sent of a snapshot: its config, if it can be encoded.
  abbrev pub sent : Option NamespaceConfig → Option NamespaceConfig
  sent none = none
  sent (some config) = sent_as (codec.encode_config config) config

  pub sent_if :
      (c : Bool) (config : NamespaceConfig) (o : Option NamespaceConfig)
      → (if c then sent (some config) else sent o) ≡ sent (if c then some config else o)
  sent_if true config o = refl
  sent_if false config o = refl

  pub keys-serialize_snapshots :
      (snapshots : Snapshots) → keys (serialize_snapshots codec snapshots) ≡ keys snapshots
  unfolding serialize_snapshots
  keys-serialize_snapshots [] = refl
  keys-serialize_snapshots ((ts, config) ∷ rest) = ap (λ k. ts ∷ k) (keys-serialize_snapshots rest)

  pub serialize_snapshots-AreTimes :
      (snapshots : Snapshots) → AreTimes snapshots → AreTimes (serialize_snapshots codec snapshots)
  unfolding serialize_snapshots
  serialize_snapshots-AreTimes [] ok = (empty, tt)
  serialize_snapshots-AreTimes ((ts, config) ∷ rest) (entry fresh unique, normal) =
      let (unique', normal') = serialize_snapshots-AreTimes rest (unique, normal.1) in
      (
        entry (λ m. fresh (subst (In ts) (keys-serialize_snapshots rest) m)) unique',
        (normal.0, normal'),
      )

  keep_some-keys :
      (namespace : Text) (snapshots : Map Time B) (rest : Map Text (Map Time B)) (k : Text)
      → In k (keys (keep_some codec namespace snapshots rest))
      → (k ≡ namespace) ⊎ In k (keys rest)
  unfolding serialize
  keep_some-keys namespace [] rest k m = inr m
  keep_some-keys namespace (s ∷ snapshots) rest k m = m

  pub serialize-keys :
      (namespaces : Namespaces) (k : Text)
      → In k (keys (serialize codec namespaces))
      → In k (keys namespaces)
  unfolding serialize
  serialize-keys [] k m = m
  serialize-keys ((namespace, snapshots) ∷ rest) k m =
      elim (keep_some-keys namespace (serialize_snapshots codec snapshots) (serialize codec rest) k
        m) [ inl e ↦ inl e | inr i ↦ inr (serialize-keys rest k i) ]

  keep_some-IsSendable :
      (namespace : Text) (snapshots : Map Time B) (rest : Map Text (Map Time B))
      → ¬ In namespace (keys rest)
      → AreTimes snapshots
      → IsSendable rest
      → IsSendable (keep_some codec namespace snapshots rest)
  unfolding serialize
  keep_some-IsSendable namespace [] rest fresh times ok = ok
  keep_some-IsSendable namespace (s ∷ snapshots) rest fresh times ok =
      (entry fresh ok.0, (times, ok.1))

  pub serialize-IsSendable :
      (namespaces : Namespaces) → IsSendable namespaces → IsSendable (serialize codec namespaces)
  unfolding serialize
  serialize-IsSendable [] ok = (empty, tt)
  serialize-IsSendable ((namespace, snapshots) ∷ rest) (entry fresh unique, times) =
      keep_some-IsSendable namespace (serialize_snapshots codec snapshots) (serialize codec rest)
        (λ m. fresh (serialize-keys rest namespace m))
        (serialize_snapshots-AreTimes snapshots times.0)
        (serialize-IsSendable rest (unique, times.1))

  keep_some_lem :
      (namespace : Text) (snapshots : Map Time B) (rest : Map Text (Map Time B)) (n : Text)
      (u : Time)
      → ¬ In namespace (keys rest)
      → entry_of (get (keep_some codec namespace snapshots rest) n) u
        ≡ (if text_eq namespace n then get snapshots u else entry_of (get rest n) u)
  unfolding serialize get
  keep_some_lem namespace [] rest n u fresh = elim (Bool-cases (text_eq namespace n)) [
    | inl b ↦
        rw b (
          ap (λ o. entry_of o u) (fresh_key namespace n rest fresh ((text_eq_iff namespace n).0 b)))
    | inr b ↦ rw b refl
  ]
  keep_some_lem namespace (s ∷ snapshots) rest n u fresh =
      entry_of_if (text_eq namespace n) (s ∷ snapshots) (get rest n) u

  -- One namespace more.
  pub entry_of-serialize :
      (namespace : Text) (snapshots : Snapshots) (rest : Namespaces) (n : Text) (u : Time)
      → ¬ In namespace (keys rest)
      → entry_of (get (serialize codec ((namespace, snapshots) ∷ rest)) n) u ≡ (
          if text_eq namespace n
          then get (serialize_snapshots codec snapshots) u
          else entry_of (get (serialize codec rest) n) u)
  unfolding serialize
  entry_of-serialize namespace snapshots rest n u fresh =
      keep_some_lem namespace (serialize_snapshots codec snapshots) (serialize codec rest) n u
        (λ m. fresh (serialize-keys rest namespace m))
