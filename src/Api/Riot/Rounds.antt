-- ===== src/Api/Riot/Rounds.antt =====
-- `_stage_round` of api/riot.py: the stage and the round that its text joins by a dash.
use tft_stats_analytics.Base.{ℕ, ◌+◌, ◌-◌, ◌*◌, ◌/◌, ◌%◌, ◌≤◌, max, ◌≡◌, arith, leb, if◌then◌else◌}

unfoldable pub stage_round : ℕ → ℕ × ℕ
stage_round last_round =
    let r = last_round - 3 in
    if leb last_round 3 then (1, max 1 last_round) else (2 + (r - 1) / 7, (r - 1) % 7 + 1)

-- The number of a round, counted from the start of the match: stage 1 has three rounds, every later
-- stage seven.
abbrev pub round_number : ℕ × ℕ → ℕ
round_number (stage, round) = if leb stage 1 then round else 3 + (stage - 2) * 7 + round

-- From the first round on, stage and round name the round of that number; the stage is at least 1,
-- and the round is between 1 and 3 in stage 1 and between 1 and 7 in a later one.
pub stage_round-inverse :
    (n : ℕ)
    → 1 ≤ n
    → (round_number (stage_round n) ≡ n)
      × (1 ≤ (stage_round n).0)
      × (1 ≤ (stage_round n).1)
      × ((stage_round n).1 ≤ (if leb (stage_round n).0 1 then 3 else 7))
unfolding stage_round
stage_round-inverse n h = ground arith
