-- ===== src/Tests/Profiles.antt =====
-- Rounds, ranks and a history of api/riot.py.
use tft_stats_analytics.Base.{ℕ, ◌≤◌, ◌≡◌, refl, some, [], ◌∷◌, length, arith, leb, if◌then◌else◌}
use tft_stats_analytics.Base.Dict.{get_or, string_eq}
use tft_stats_analytics.Base.Order.{pair_leq, nat_order, pair_order}
use tft_stats_analytics.Api.Riot.Rounds.{stage_round, round_number, stage_round-inverse}
use tft_stats_analytics.Api.Riot.Rank.{Rank, RankStore, snapshot, record_rank, rank_value, index_of}
use tft_stats_analytics.Api.Riot.Rank.Ladder.{rank_value_order, place, steps}
use tft_stats_analytics.Api.Riot.Rank.History.{record_rank-IsRecorded, IsHistory, EndsWith}

stage_round-inverse_example :
    (round_number (stage_round 33) ≡ 33)
    × (1 ≤ (stage_round 33).0)
    × (1 ≤ (stage_round 33).1)
    × ((stage_round 33).1 ≤ (if leb (stage_round 33).0 1 then 3 else 7))
stage_round-inverse_example = stage_round-inverse 33 (omega arith)

gold_place : place "GOLD" ≡ some 3
unfolding index_of
gold_place = refl

rank_value_order_example :
    leb (rank_value "GOLD" "II" 40) (rank_value "GOLD" "I" 10)
    ≡ pair_leq {A = ℕ} {B = ℕ × ℕ} (3, (steps "II", 40)) (3, (steps "I", 10))
rank_value_order_example =
    rank_value_order "GOLD" "GOLD" "II" "I" 40 10 3 3 gold_place gold_place (omega arith)
      (omega arith)

abbrev gold_rank : Rank
gold_rank = record {
  tier = "GOLD";
  division = "II";
  lp = 40;
  label = "Gold II";
  wins = 10;
  losses = 9;
}

abbrev ranks : RankStore
unfolding snapshot
ranks = ("p1", snapshot 4 gold_rank ∷ []) ∷ []

ranks-IsHistory : IsHistory 7 (get_or [] "p1" ranks)
unfolding get_or ranks snapshot
ranks-IsHistory = ((tt, tt), (omega arith, tt))

record_rank-IsRecorded_example :
    IsHistory 7 (record_rank 7 "p1" gold_rank ranks).1
    × EndsWith (snapshot 7 gold_rank) (record_rank 7 "p1" gold_rank ranks).1
    × (length (record_rank 7 "p1" gold_rank ranks).1 ≤ 120)
    × (get_or [] "p2" (record_rank 7 "p1" gold_rank ranks).0 ≡ get_or [] "p2" ranks)
record_rank-IsRecorded_example =
    record_rank-IsRecorded 7 "p1" "p2" gold_rank ranks refl ranks-IsHistory
