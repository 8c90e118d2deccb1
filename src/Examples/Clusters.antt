-- ===== src/Examples/Clusters.antt =====
-- Membership and gossip between two nodes, "a" and "b".
use access_controller.Prelude.{
  ℕ, ◌≡◌, refl, ◌≢◌, ◌↔◌, ◌⊎◌, inl, inr, sym, Option, none, some, List, [], ◌∷◌, arith,
  if◌then◌else◌, In,
}
use access_controller.Map.{get, empty, entry}
use access_controller.Text.{Text, bytes, text_eq, text_eq_iff, text_key}
use access_controller.Time.{round_utc}
use access_controller.Config.{NamespaceConfig}
use access_controller.Snapshots.{empty_store, get_snapshot, get_snapshots}
use access_controller.Membership.{Ring, Cluster, Member, joins, handle, handle_all, notify_join}
use access_controller.Membership.Routed.{HasClient, IsRouted, handle_all-HasClient}
use access_controller.Gossip.{Metadata, Codec, local_state, merge_remote_state}
use access_controller.Gossip.Replicated.{IsFaithful, merge_remote_state-local_state}
use access_controller.Gossip.Sent.{sent}
use access_controller.Gossip.Entries.{IsSendable, or_else}
use access_controller.Examples.Data.{at, doc, sample_store}

-- A ring is the list of its members, the newest first, and every key belongs to the newest.
pub remove_node : List Text → Text → List Text
remove_node [] node = []
remove_node (x ∷ xs) node =
    let rest = remove_node xs node in if text_eq x node then rest else x ∷ rest

pub newest : List Text → Text
newest [] = []
newest (x ∷ xs) = x

pub remove_node_iff :
    (xs : List Text) (node x : Text) → In x (remove_node xs node) ↔ ((x ≢ node) × In x xs)
unfolding remove_node
remove_node_iff [] node x = ((λ h. absurd h), (λ h. h.1))
remove_node_iff (y ∷ ys) node x = ground (arith, text_eq_iff y node, remove_node_iff ys node x)

pub newest-In : (xs : List Text) → xs ≢ [] → In (newest xs) xs
unfolding newest
newest-In [] h = h refl
newest-In (x ∷ xs) h = inl refl

abbrev pub newest_first : Ring (List Text)
newest_first = record {
  add = λ r node. node ∷ r;
  remove = remove_node;
  members = λ r. r;
  locate = λ r key. newest r;
  members-add = λ r node x. ((λ h. h), (λ h. h));
  members-remove = remove_node_iff;
  members-locate = λ r key. newest-In r;
}

abbrev alone_cluster : Cluster ℕ (List Text)
alone_cluster = record { router = []; hashring = bytes "a" ∷ []; configs = sample_store }

abbrev peer_b : Member ℕ
peer_b = record { name = bytes "b"; client = some 1 }

alone_cluster-IsRouted : IsRouted newest_first (bytes "a") alone_cluster
alone_cluster-IsRouted = record { routed = λ x h. elim h [ inl e ↦ inl e | inr k ↦ absurd k ] }

handle_all-HasClient_example :
    (newest_first.locate
        (handle_all newest_first (bytes "a") alone_cluster (joins peer_b ∷ [])).hashring
        (bytes "readme")
      ≡ bytes "a")
    ⊎ HasClient (handle_all newest_first (bytes "a") alone_cluster (joins peer_b ∷ [])).router (
        newest_first.locate
          (handle_all newest_first (bytes "a") alone_cluster (joins peer_b ∷ [])).hashring
          (bytes "readme"))
unfolding handle_all handle notify_join text_eq
handle_all-HasClient_example =
    handle_all-HasClient newest_first (bytes "a") alone_cluster (joins peer_b ∷ []) (bytes "readme")
      alone_cluster-IsRouted (λ e. cc)

-- Encodings that leave everything as it is; `none` is a nil slice.
abbrev Encoded : Type 0
Encoded = Option NamespaceConfig

abbrev plain : Codec Encoded (Option (Metadata Encoded))
plain = record {
  encode_config = λ config. some (some config);
  decode_config = λ b. b;
  marshal = λ m. some (some m);
  unmarshal = λ text. text;
  nil_config = none;
  nil_data = none;
}

abbrev IsAnything : Text → Type 0
IsAnything t = Unit

plain-IsFaithful : IsFaithful plain IsAnything
plain-IsFaithful = record {
  config_back = λ config b e. let same : some config ≡ b = cc in sym same;
  nil_fails = refl;
  nil_data_fails = refl;
  metadata_back = λ m text e _ _ ok.
      let same : some m ≡ text = cc in (m, sym same, refl, ok, λ namespace u. refl);
}

sample_store-IsSendable : IsSendable (get_snapshots sample_store (bytes "a"))
unfolding get_snapshots get text_eq round_utc
sample_store-IsSendable = (entry (λ h. h) empty, ((entry (λ h. h) empty, (refl, tt)), tt))

merge_remote_state-local_state_example :
    get_snapshot
      (merge_remote_state plain empty_store (local_state plain sample_store (bytes "a") 80))
      (bytes "a")
      doc
      (at 5)
    ≡ (if text_eq (bytes "a") (bytes "a")
        then or_else
            (sent plain (get_snapshot sample_store (bytes "a") doc (at 5)))
            (get_snapshot empty_store (bytes "a") doc (at 5))
        else get_snapshot empty_store (bytes "a") doc (at 5))
unfolding get_snapshots get text_eq
merge_remote_state-local_state_example =
    merge_remote_state-local_state plain IsAnything empty_store sample_store (bytes "a") 80
      (bytes "a") doc (at 5) plain-IsFaithful tt (tt, tt) sample_store-IsSendable
