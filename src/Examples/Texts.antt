-- ===== src/Examples/Texts.antt =====
-- Subjects.
use access_controller.Prelude.{◌≡◌, refl, ◌↔◌, some, none}
use access_controller.Text.{bytes, contains, split}
use access_controller.Tuple.{set_string, set_from_string}
use access_controller.Tuple.Strings.{IsPlain, set_from_string_iff}
use access_controller.Examples.Data.{team}

set_parses : set_from_string (bytes "doc:team#member") ≡ some team
unfolding set_from_string split
set_parses = refl

set_malformed : set_from_string (bytes "doc:team") ≡ none
unfolding set_from_string split
set_malformed = refl

team-IsPlain : IsPlain team
unfolding contains
team-IsPlain = record {
  namespace_hash = refl;
  namespace_colon = refl;
  object_hash = refl;
  object_colon = refl;
  relation_hash = refl;
}

set_from_string_iff_example :
    (set_from_string (bytes "doc:team#member") ≡ some team)
    ↔ ((bytes "doc:team#member" ≡ set_string team) × IsPlain team)
set_from_string_iff_example = set_from_string_iff (bytes "doc:team#member") team
