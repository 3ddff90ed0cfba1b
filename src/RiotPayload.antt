-- ===== src/RiotPayload.antt =====
-- The JSON that the Riot API answers, as far as ingestion/riot_client.py and api/riot.py read it. A
-- key may be missing or null; where it is given, it has the type that the API documents, and numbers
-- are not negative. Keys that nothing reads are left out.
use tft_stats_analytics.Base.{ℕ, String, Option, List}
use tft_stats_analytics.Base.Result.{Field}

pub record RawUnit : Type 0 where
  pub character_id : Field String
  pub tier : Field ℕ
  pub rarity : Field ℕ
  pub item_names : Field (List String)
  pub items : Field (List String)

pub record RawTrait : Type 0 where
  pub name : Field String
  pub style : Field ℕ
  pub tier_current : Field ℕ
  pub num_units : Field ℕ

pub record RawPlayer : Type 0 where
  pub puuid : Field String
  pub placement : Field ℕ
  pub level : Field ℕ
  pub last_round : Field ℕ
  pub gold_left : Field ℕ
  pub damage : Field ℕ
  pub eliminations : Field ℕ
  pub augments : Field (List String)
  pub units : Field (List RawUnit)
  pub traits : Field (List RawTrait)

pub record RawInfo : Type 0 where
  pub game_version : Field String
  pub game_datetime : Field ℕ
  pub queue_id : Field ℕ
  pub participants : Field (List RawPlayer)

pub record RawMetadata : Type 0 where
  pub match_id : Field String

pub record RawMatch : Type 0 where
  pub info : Field RawInfo
  pub metadata : Field RawMetadata

-- An entry of a league. Its keys may be missing, but none is null.
pub record RawLeague : Type 0 where
  pub puuid : Option String
  pub queue_type : Option String
  pub tier : Option String
  pub rank : Option String
  pub league_points : Option ℕ
  pub wins : Option ℕ
  pub losses : Option ℕ

-- An account.
pub record RawAccount : Type 0 where
  pub puuid : Option String
  pub game_name : Option String
  pub tag_line : Option String
