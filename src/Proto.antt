-- ===== src/Proto.antt =====
-- The messages of proto/tft.proto that the Python services exchange. Sequence numbers, counts and
-- times are never negative in the program, so they are natural numbers; a protobuf map is its
-- list of entries. The rates of a `StatEntry` are floats, whose type is a parameter `F`.
use tft_stats_analytics.Base.{ℕ, String, List}

abbrev pub VectorClock : Type 0
VectorClock = List (String × ℕ)

pub record BoardUnit : Type 0 where
  pub character_id : String
  pub tier : ℕ
  pub items : List String

pub record PlayerResult : Type 0 where
  pub puuid : String
  pub placement : ℕ
  pub units : List BoardUnit
  pub augments : List String
  pub rounds_played : ℕ

pub record MatchEvent : Type 0 where
  pub match_id : String
  pub region : String
  pub patch : String
  pub tier : String
  pub players : List PlayerResult
  pub clock : VectorClock
  pub timestamp : ℕ

pub record StatEntry (F : Type 0) : Type 0 where
  pub entity_id : String
  pub entity_type : String
  pub patch : String
  pub region : String
  pub tier : String
  pub win_rate : F
  pub avg_placement : F
  pub play_rate : F
  pub sample_size : ℕ
  pub clock : VectorClock
