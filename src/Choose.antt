-- ===== src/Choose.antt =====
-- AccessController.chooseNamespaceConfigSnapshot (internal/access-controller.go): the snapshot of a
-- namespace at which a request is evaluated, chosen among those that this node and its peers hold.
pub mod Common
pub mod Search
pub mod Sound
pub mod Peers
use access_controller.Prelude.{
  ℕ, Bool, Option, none, some, List, [], ◌∷◌, ltb, if◌then◌else◌, length,
}
use access_controller.Map.{Map, get, put}
use access_controller.Text.{Text, text_eq, text_key}
use access_controller.Time.{Time, zero_time, equal, after, time_key}
use access_controller.Config.{NamespaceConfig}
use access_controller.Snapshots.{Snapshots, ConfigStore, list_snapshots}

-- NamespaceConfigSnapshot; a nil config is `none`
pub record ConfigSnapshot : Type 0 where
  pub config : Option NamespaceConfig
  pub timestamp : Time

-- the variables min, peerWithMin and s
pub record Candidate : Type 0 where
  pub min : ℕ
  pub peer : Text
  pub snapshots : Snapshots

-- min := math.MaxInt32
abbrev pub first_candidate : Candidate
first_candidate = record { min = 2147483647; peer = []; snapshots = [] }

-- the loop that finds the first peer with the fewest snapshots
unfoldable pub smallest : Candidate → Map Text Snapshots → Candidate
smallest c [] = c
smallest c ((peer, snapshots) ∷ rest) =
    smallest
      (if ltb (length snapshots) c.min
        then record { min = length snapshots; peer = peer; snapshots = snapshots }
        else c)
      rest

-- map[time.Time]struct{}
abbrev pub TimeSet : Type 0
TimeSet = Map Time (Unit {0})

-- for ts := range snapshots
unfoldable pub match_snapshots : Time → Snapshots → TimeSet → TimeSet
match_snapshots timestamp [] common = common
match_snapshots timestamp ((ts, config) ∷ rest) common =
    match_snapshots timestamp rest (if equal timestamp ts then put common timestamp tt else common)

-- for peer, snapshots := range peerSnapshots, but not for the peer with the fewest
unfoldable pub match_peers : Text → Time → Map Text Snapshots → TimeSet → TimeSet
match_peers me timestamp [] common = common
match_peers me timestamp ((peer, snapshots) ∷ rest) common =
    match_peers me timestamp rest
      (if text_eq peer me then common else match_snapshots timestamp snapshots common)

-- for timestamp := range s
unfoldable pub match_all : Text → Map Text Snapshots → Snapshots → TimeSet → TimeSet
match_all me peers [] common = common
match_all me peers ((timestamp, config) ∷ rest) common =
    match_all me peers rest (match_peers me timestamp peers common)

-- with one peer, all of its timestamps
unfoldable pub add_all : Snapshots → TimeSet → TimeSet
add_all [] common = common
add_all ((ts, config) ∷ rest) common = add_all rest (put common ts tt)

unfoldable pub common_timestamps : Map Text Snapshots → Candidate → TimeSet
common_timestamps peers c =
    if ltb 1 (length peers) then match_all c.peer peers c.snapshots [] else add_all c.snapshots []

-- the loop over commonTimestamps that keeps the latest
unfoldable pub latest : Time → TimeSet → Time
latest selected [] = selected
latest selected ((t, _) ∷ rest) = latest (if after t selected then t else selected) rest

lookup_config : Option Snapshots → Time → Option NamespaceConfig
lookup_config none ts = none
lookup_config (some snapshots) ts = get snapshots ts

-- `none` is ErrNoLocalNamespacesDefined
unfoldable pub select : Map Text Snapshots → Candidate → TimeSet → Option ConfigSnapshot
unfolding lookup_config
select peers c [] = none
select peers c (t ∷ ts) =
    let selected = latest zero_time (t ∷ ts) in
    some (record { config = lookup_config (get peers c.peer) selected; timestamp = selected })

unfoldable pub choose_among : Map Text Snapshots → Option ConfigSnapshot
choose_among [] = none
choose_among (p ∷ peers) =
    let c = smallest first_candidate (p ∷ peers) in
    select (p ∷ peers) c (common_timestamps (p ∷ peers) c)

-- chooseNamespaceConfigSnapshot
unfoldable pub choose : ConfigStore → Text → Option ConfigSnapshot
choose store namespace = choose_among (list_snapshots store namespace)
