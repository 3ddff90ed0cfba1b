-- ===== src/Ingestion/RiotClient/Normalize.antt =====
-- `RiotClient.normalize` of ingestion/riot_client.py. `None` in a field of a message leaves it unset,
-- as protobuf's constructors do; `int(None)`, a loop over `None` and an attribute of `None` raise.
pub mod Shape
pub mod Stamp
use tft_stats_analytics.Base.{
  ℕ, String, ◌<>◌, Bool, Option, none, some, List, [], ◌∷◌, ◌==◌, if◌then◌else◌,
}
use tft_stats_analytics.Base.Result.{
  Result, ok, err, Field, missing, null, given, get_field, field_or, not_none, collect, ◌>>=◌,
}
use tft_stats_analytics.Base.Text.{split_by, words, is_number, remove_word}
use tft_stats_analytics.Proto.{BoardUnit, PlayerResult, MatchEvent}
use tft_stats_analytics.RiotPayload.{RawUnit, RawPlayer, RawInfo, RawMetadata, RawMatch}
use tft_stats_analytics.TftData.{default_patch}
use tft_stats_analytics.Ingestion.RiotClient.{Raised, none_error}

-- `int(d.get(k, default))`
abbrev pub int_of : ℕ → Field ℕ → Result Raised ℕ
int_of default f = not_none none_error (get_field default f)

-- `u.get("itemNames", u.get("items", [])) or []`
abbrev pub items_of : RawUnit → List String
items_of u = elim u.item_names [ missing ↦ field_or [] u.items | null ↦ [] | given items ↦ items ]

unfoldable pub normalize_unit : RawUnit → Result Raised BoardUnit
normalize_unit u = do
  tier ← int_of 1 u.tier
  ok (record { character_id = field_or "" u.character_id; tier = tier; items = items_of u })

-- The message of a player with these units.
abbrev pub player_of : RawPlayer → List BoardUnit → Result Raised PlayerResult
player_of p units = do
  placement ← int_of 8 p.placement
  rounds ← int_of 0 p.last_round
  ok (record {
    puuid = field_or "" p.puuid;
    placement = placement;
    units = units;
    augments = field_or [] p.augments;
    rounds_played = rounds;
  })

unfoldable pub normalize_player : RawPlayer → Result Raised PlayerResult
unfolding normalize_unit
normalize_player p = do
  raw_units ← not_none none_error (get_field [] p.units)
  units ← collect normalize_unit raw_units
  player_of p units

abbrev pub match_id_of : Field RawMetadata → Result Raised String
match_id_of missing = ok ""
match_id_of null = err none_error
match_id_of (given m) = ok (field_or "" m.match_id)

abbrev pub info_of : Field RawInfo → Option RawInfo
info_of missing = none
info_of null = none
info_of (given info) = some info

-- The event of a match with players; without any there is none.
abbrev pub event_of :
    RawMatch
    → RawInfo
    → String
    → String
    → String
    → String
    → ℕ
    → ℕ
    → List PlayerResult
    → Result Raised (Option MatchEvent)
event_of raw info region tier patch node_id seq now [] = ok none
event_of raw info region tier patch node_id seq now (p ∷ ps) = do
  match_id ← match_id_of raw.metadata
  timestamp ← int_of now info.game_datetime
  ok (
      some (record {
        match_id = match_id;
        region = region;
        patch = patch;
        tier = tier;
        players = p ∷ ps;
        clock = (node_id, seq) ∷ [];
        timestamp = timestamp;
      }))

-- What `isdigit` and `isspace` hold of, by code point.
module _ (is_digit is_space : ℕ → Bool) where
  -- One token: the first two parts around the dots, if there are two and the first is a number.
  abbrev pub patch_in : List String → Option String
  patch_in [] = none
  patch_in (major ∷ []) = none
  patch_in (major ∷ minor ∷ parts) =
      if is_number is_digit major then some (major <> ("." <> minor)) else none

  -- The loop over the tokens, with its `break`.
  unfoldable pub first_patch : List String → Option String
  unfolding split_by
  first_patch [] = none
  first_patch (tok ∷ toks) = elim (patch_in (split_by (λ c. c == b'.') tok)) [
    | none ↦ first_patch toks
    | some patch ↦ some patch
  ]

  abbrev pub patch_or : Option String → String
  patch_or none = default_patch
  patch_or (some patch) = patch

  unfoldable pub patch_of : String → String
  unfolding first_patch words remove_word
  patch_of game_version =
      patch_or (first_patch (words is_space (remove_word "Version" 0 game_version)))

  unfoldable pub normalize_info :
      RawMatch → RawInfo → String → String → String → ℕ → ℕ → Result Raised (Option MatchEvent)
  unfolding normalize_player patch_of
  normalize_info raw info region tier node_id seq now = do
    gv ← not_none none_error (get_field "" info.game_version)
    participants ← not_none none_error (get_field [] info.participants)
    players ← collect normalize_player participants
    event_of raw info region tier (patch_of gv) node_id seq now players

  -- `normalize`; `now` is the time in milliseconds. An info without keys has no players either.
  unfoldable pub normalize :
      RawMatch → String → String → String → ℕ → ℕ → Result Raised (Option MatchEvent)
  unfolding normalize_info
  normalize raw region tier node_id seq now = elim (info_of raw.info) [
    | none ↦ ok none
    | some info ↦ normalize_info raw info region tier node_id seq now
  ]
