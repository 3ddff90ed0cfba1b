-- ===== src/Tests/Lookups.antt =====
-- A player's lookup, and the parts of its profile.
use tft_stats_analytics.Base.{
  ℕ, String, ◌≡◌, refl, false, some, List, [], ◌∷◌, none, ◌==◌, arith, if◌then◌else◌,
}
use tft_stats_analytics.Base.Dict.{get_or, string_eq}
use tft_stats_analytics.Base.Fixed.{fixed}
use tft_stats_analytics.Base.Order.{nat_order, str_order, pair_order}
use tft_stats_analytics.Base.Result.{Result, ok, err, missing, given}
use tft_stats_analytics.Base.Text.{is_ascii_digit}
use tft_stats_analytics.RiotPayload.{RawMatch}
use tft_stats_analytics.Api.Riot.Client.{Answer, body, http_error, get}
use tft_stats_analytics.Api.Riot.Client.Settled.{get-eq}
use tft_stats_analytics.Api.Riot.Units.{UnitView}
use tft_stats_analytics.Api.Riot.Match.{MatchView}
use tft_stats_analytics.Api.Riot.Stats.{use_matches, no_use}
use tft_stats_analytics.Api.Riot.Stats.Usage.{use_matches-eq-count}
use tft_stats_analytics.Api.Riot.Standing.{Python}
use tft_stats_analytics.Api.Riot.Profile.{
  Source, Known, Profile, not_found, full, Stopped, build_player_profile,
}
use tft_stats_analytics.Api.Service.Players.{player_analysis, usable_key, riot_id}
use tft_stats_analytics.Api.Service.Players.Answers.{IsAnswered, player_analysis-IsAnswered}
use tft_stats_analytics.Api.Riot.Profile.Kept.{Keeps, build_player_profile-Keeps}
use tft_stats_analytics.Api.Riot.Profile.Listed.{IsShown, build_player_profile-IsShown}

-- Every request but the second is throttled.
abbrev busy_server : ℕ → Answer ℕ
busy_server n = if n == 1 then body 100 (some 7) else http_error 429

get-eq_example : get busy_server 2 ≡ some (ok (some 7), 2)
get-eq_example = get-eq busy_server 2 (omega arith)

abbrev unit_of : String → ℕ → UnitView
unit_of id cost = record {
  champion = id;
  icon = "";
  cost = cost;
  star = 2;
  items = [];
  carry = false;
}

abbrev view_of : ℕ → MatchView
view_of placement = record {
  match_id = "NA_1";
  date = "2026-01-01";
  timestamp = 5;
  queue = "Ranked";
  placement = placement;
  level = 8;
  round = (5, 2);
  gold_left = 3;
  damage = 70;
  eliminations = 2;
  traits = [];
  units = unit_of "TFT_Ahri" 4 ∷ unit_of "TFT_Ahri" 4 ∷ [];
}

abbrev views : List MatchView
views = view_of 3 ∷ view_of 1 ∷ view_of 6 ∷ []

use_matches-eq-count_example :
    get_or 0 "TFT_Ahri" (use_matches fixed views (no_use fixed)).games ≡ 3
use_matches-eq-count_example = use_matches-eq-count fixed "TFT_Ahri" views

-- Riot's answers for a gold player with one match.
abbrev ascii_text : Python
ascii_text = record {
  is_digit = is_ascii_digit;
  is_space = λ c. c == b' ';
  lower = λ s. s;
  upper = λ s. s;
  title = λ s. s;
  decimal = λ n. "40";
  date_of = λ t. "2026-01-01";
}

abbrev played_match : RawMatch
played_match = record {
  info = given (record {
    game_version = missing;
    game_datetime = given 5;
    queue_id = given 1100;
    participants = given (
        record {
          puuid = given "p1";
          placement = given 2;
          level = given 8;
          last_round = given 33;
          gold_left = missing;
          damage = missing;
          eliminations = missing;
          augments = missing;
          units = given [];
          traits = missing;
        }
        ∷ []);
  });
  metadata = missing;
}

abbrev riot_answers : Source
riot_answers = record {
  account = λ name tag.
      ok (some (record { puuid = some "p1"; game_name = some "Ann"; tag_line = some "NA1" }));
  league = λ puuid platform. ok (
      record {
        puuid = some "p1";
        queue_type = some "RANKED_TFT";
        tier = some "GOLD";
        rank = some "II";
        league_points = some 40;
        wins = some 11;
        losses = some 9;
      }
      ∷ []);
  match_ids = λ puuid cluster n. ok ("NA_1" ∷ []);
  match = λ id cluster. ok (some played_match);
  now = λ id. 9;
}

abbrev known : Known
known = record { ids = "Hyperick#NA1" ∷ []; store = [] }

abbrev looked_up : Known × Result Stopped (Profile fixed)
looked_up = build_player_profile fixed ascii_text riot_answers 7 "ann" "NA1" known

build_player_profile-Keeps_example : Keeps "p2" known looked_up.0
build_player_profile-Keeps_example =
    build_player_profile-Keeps fixed ascii_text riot_answers 7 "p2" "ann" "NA1" known refl

abbrev profile_or : Profile fixed → Result Stopped (Profile fixed) → Profile fixed
profile_or p (ok q) = q
profile_or p (err e) = p

abbrev shown_profile : Profile fixed
shown_profile = profile_or (not_found "") looked_up.1

abbrev sample_of : Profile fixed → ℕ
sample_of (full heading s matches) = s.sample
sample_of p = 0

-- The profile is the full one, of one match.
shown_sample : sample_of shown_profile ≡ 1
unfolding build_player_profile
shown_sample = refl

shown : looked_up.1 ≡ ok shown_profile
unfolding build_player_profile
shown = refl

build_player_profile-IsShown_example : IsShown fixed shown_profile
build_player_profile-IsShown_example =
    build_player_profile-IsShown fixed ascii_text riot_answers 7 "ann" "NA1" known shown_profile
      shown

-- With a key in the request, and none configured.
player_analysis-IsAnswered_example :
    IsAnswered fixed ascii_text
      (λ key. riot_answers)
      7
      "p2"
      known
      (player_analysis fixed ascii_text
        (λ key. riot_answers)
        7
        " ann#NA1"
        (some "RGAPI")
        none
        known)
unfolding usable_key riot_id
player_analysis-IsAnswered_example =
    player_analysis-IsAnswered fixed ascii_text (λ key. riot_answers) 7 " ann#NA1" "p2"
      (some "RGAPI") none known refl
