-- ===== src/Api/Riot/Match.antt =====
-- `_parse_match` of api/riot.py. Lower case, the text of a date and the digits of Unicode are
-- parameters. `None` where a number, a list or an object is needed raises; the ids of a match and of
-- its characters are not null.
use tft_stats_analytics.Base.{
  ℕ, String, Bool, false, ◌&&◌, ◌||◌, Option, none, some, List, [], ◌∷◌, map, leb, ◌==◌, str_eq,
  if◌then◌else◌,
}
use tft_stats_analytics.Base.Dict.{get_or, string_eq, nat_eq}
use tft_stats_analytics.Base.Order.{Down, down_order, nat_order, str_order, pair_order}
use tft_stats_analytics.Base.Sort.{sort_by}
use tft_stats_analytics.Base.Result.{
  Result, ok, err, Field, missing, null, given, get_field, field_or, not_none, collect, ◌>>=◌,
}
use tft_stats_analytics.Base.Text.{drop_chars, keep_chars, skip_chars}
use tft_stats_analytics.RiotPayload.{RawUnit, RawTrait, RawPlayer, RawInfo, RawMetadata, RawMatch}
use tft_stats_analytics.TftData.Icons.{champion_icons}
use tft_stats_analytics.TftData.Traits.{Trait, traits_data}
use tft_stats_analytics.Api.Riot.Units.{
  item_icon, item_name, ItemView, UnitView, unit_cost, arrange,
}
use tft_stats_analytics.Api.Riot.Rounds.{stage_round}
use text.Mathlib.Text.{starts_with}

-- What the parser raises: an operation on `None`.
pub data NoneError : Type 0 where
  none_error : NoneError

-- `int(d.get(k, default))`
abbrev pub int_of : ℕ → Field ℕ → Result NoneError ℕ
int_of default f = not_none none_error (get_field default f)

-- `_QUEUES`
abbrev pub queues : List (ℕ × String)
queues =
    (1100, "Ranked")
    ∷ (1090, "Normal")
    ∷ (1130, "Hyper Roll")
    ∷ (1160, "Double Up")
    ∷ (1170, "Double Up")
    ∷ []

-- `_TRAIT_STYLES`
abbrev pub trait_styles : List (ℕ × String)
trait_styles =
    (0, "none")
    ∷ (1, "bronze")
    ∷ (2, "silver")
    ∷ (3, "gold")
    ∷ (4, "prismatic")
    ∷ (5, "prismatic")
    ∷ []

pub record TraitView : Type 0 where
  pub name : String
  pub count : ℕ
  pub tier : ℕ
  pub icon : String
  pub style : String

pub record MatchView : Type 0 where
  pub match_id : String
  pub date : String
  pub timestamp : ℕ
  pub queue : String
  pub placement : ℕ
  pub level : ℕ
  -- the stage and the round that the text joins
  pub round : ℕ × ℕ
  pub gold_left : ℕ
  pub damage : ℕ
  pub eliminations : ℕ
  pub traits : List TraitView
  pub units : List UnitView

-- The test `me`: the first participant with the id.
abbrev pub is_puuid : String → Field String → Bool
is_puuid puuid missing = false
is_puuid puuid null = false
is_puuid puuid (given p) = str_eq p puuid

unfoldable pub find_player : String → List RawPlayer → Option RawPlayer
find_player puuid [] = none
find_player puuid (p ∷ ps) =
    let rest = find_player puuid ps in if is_puuid puuid p.puuid then some p else rest

-- `re.sub(r"^TFT\d*<end>", "", s)`
unfoldable pub strip_set : (ℕ → Bool) → String → ℕ → String → String
unfolding drop_chars skip_chars
strip_set is_digit end_ length_ s =
    let rest = drop_chars is_digit (skip_chars 3 s) in
    if starts_with s "TFT" && starts_with rest end_ then skip_chars length_ rest else s

-- `is_digit` is `\d`, `lower` is `str.lower`, and `date_of` the date of a time in milliseconds.
module _ (is_digit : ℕ → Bool) (lower : String → String) (date_of : ℕ → String) where
  unfoldable pub view_item : String → ItemView
  unfolding get_or item_name item_icon strip_set
  view_item it = record {
    name = get_or (strip_set is_digit "_Item_" 6 it) it item_name;
    icon = get_or "" it item_icon;
  }

  -- The body of the loop over the units; `carry` is set afterwards.
  unfoldable pub view_unit : RawUnit → Result NoneError UnitView
  unfolding get_or champion_icons unit_cost view_item
  view_unit u = do
    star ← int_of 1 u.tier
    ok (record {
      champion = field_or "" u.character_id;
      icon = get_or "" (field_or "" u.character_id) champion_icons;
      cost = unit_cost u;
      star = star;
      items = map view_item (field_or [] u.item_names);
      carry = false;
    })

  abbrev is_norm_char : ℕ → Bool
  is_norm_char c = leb b'a' c && leb c b'z' || leb b'0' c && leb c b'9'

  -- `_norm`
  unfoldable pub norm : String → String
  unfolding keep_chars
  norm s = keep_chars is_norm_char (lower s)

  -- `_TRAIT_BY_NORM.get(…)`: the last trait of a name is in the dict.
  unfoldable pub trait_by_norm : String → List Trait → Option Trait
  unfolding norm
  trait_by_norm key [] = none
  trait_by_norm key (t ∷ ts) = elim (trait_by_norm key ts) [
    | none ↦ if str_eq (norm t.name) key then some t else none
    | some later ↦ some later
  ]

  abbrev pub name_or : String → Option Trait → String
  name_or name none = name
  name_or name (some t) = t.name

  abbrev pub icon_or : Option Trait → String
  icon_or none = ""
  icon_or (some t) = t.icon

  -- One trait after the two tests.
  unfoldable pub show_trait : ℕ → ℕ → RawTrait → Result NoneError TraitView
  unfolding trait_by_norm traits_data strip_set norm get_or
  show_trait style tier t = do
    name ← not_none none_error (get_field "" t.name)
    count ← int_of 0 t.num_units
    let short = strip_set is_digit "_" 1 name
    let meta = trait_by_norm (norm short) traits_data
    ok (record {
      name = name_or short meta;
      count = count;
      tier = tier;
      icon = icon_or meta;
      style = get_or "bronze" style trait_styles;
    })

  -- The body of the loop over the traits: `none` is the `continue`.
  unfoldable pub view_trait : RawTrait → Result NoneError (Option TraitView)
  unfolding show_trait
  view_trait t = do
    style ← int_of 0 t.style
    tier ← if style == 0 then ok 0 else int_of 0 t.tier_current
    if tier == 0 then ok none else show_trait style tier t >>= λ v. ok (some v)

  abbrev pub shown : List (Option TraitView) → List TraitView
  shown [] = []
  shown (none ∷ ts) = shown ts
  shown (some t ∷ ts) = t ∷ shown ts

  abbrev pub trait_key : TraitView → Down ℕ × Down ℕ
  trait_key t = (record { value = t.tier }, record { value = t.count })

  abbrev pub match_id_of : Field RawMetadata → Result NoneError String
  match_id_of missing = ok ""
  match_id_of null = err none_error
  match_id_of (given m) = ok (field_or "" m.match_id)

  abbrev pub queue_of : Field ℕ → String
  queue_of missing = "TFT"
  queue_of null = "TFT"
  queue_of (given id) = get_or "TFT" id queues

  -- The view of a player's match; `now` is the time in milliseconds.
  unfoldable pub view_match : RawMatch → RawInfo → ℕ → RawPlayer → Result NoneError MatchView
  unfolding view_unit arrange view_trait sort_by get_or stage_round
  view_match raw info now me = do
    raw_units ← not_none none_error (get_field [] me.units)
    units ← collect view_unit raw_units
    raw_traits ← not_none none_error (get_field [] me.traits)
    traits ← collect view_trait raw_traits
    time ← int_of now info.game_datetime
    match_id ← match_id_of raw.metadata
    timestamp ← int_of 0 info.game_datetime
    placement ← int_of 8 me.placement
    level ← int_of 0 me.level
    last_round ← int_of 0 me.last_round
    gold_left ← int_of 0 me.gold_left
    damage ← int_of 0 me.damage
    eliminations ← int_of 0 me.eliminations
    ok (record {
      match_id = match_id;
      date = date_of time;
      timestamp = timestamp;
      queue = queue_of info.queue_id;
      placement = placement;
      level = level;
      round = stage_round last_round;
      gold_left = gold_left;
      damage = damage;
      eliminations = eliminations;
      traits = sort_by trait_key (shown traits);
      units = arrange units;
    })

  abbrev pub info_or_none : Field RawInfo → RawInfo
  info_or_none (given info) = info
  info_or_none _ = record {
    game_version = missing;
    game_datetime = missing;
    queue_id = missing;
    participants = missing;
  }

  -- `_parse_match`
  unfoldable pub parse_match : RawMatch → String → ℕ → Result NoneError (Option MatchView)
  unfolding find_player view_match
  parse_match raw puuid now = do
    participants ← not_none none_error (get_field [] (info_or_none raw.info).participants)
    elim (find_player puuid participants) [
      | none ↦ ok none
      | some me ↦ view_match raw (info_or_none raw.info) now me >>= λ v. ok (some v)
    ]
