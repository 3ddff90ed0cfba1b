-- ===== src/Tests/Guards.antt =====
-- The request guards of api/security.py and the cache of api/cache.py.
use tft_stats_analytics.Base.{
  ℕ, ◌+◌, ◌≤◌, ◌<◌, String, ◌≡◌, refl, true, ◌&&◌, ◌||◌, some, none, List, [], ◌∷◌, arith, leb,
  ◌==◌,
}
use tft_stats_analytics.Base.Dict.{lookup, string_eq, get_or, insert}
use tft_stats_analytics.Api.Security.Window as Window
use tft_stats_analytics.Api.Security.Window.{Hits}
use tft_stats_analytics.Api.Security.Window.Tracks.{Tracks}
use tft_stats_analytics.Api.Security.Window.Allow.{
  allow-IsDecided, IsDecided, IsUnpruned, allow_keeps_keys, deque,
}
use tft_stats_analytics.Api.Security.Daily.{DailyCap}
use tft_stats_analytics.Api.Security.Params.{
  codes, Unicode, ok, clean_param, validate_riot_id, is_riot_id, strip, strip_left, strip_right,
  contains, is_prefix, is_riot_id_from, is_tag, is_name_char,
}
use tft_stats_analytics.Api.Security.Params.Clean.{validate_riot_id-IsSafe, IsSafe}
use tft_stats_analytics.Api.Security.Middleware.{Settings, Guards, Verdict, guard}
use tft_stats_analytics.Api.Security.Middleware.Spending.{IsFrugal, guard-IsFrugal}
use tft_stats_analytics.Api.Cache.{
  Cache, Write, filled, cleared, probe, fill, run, probe_fresh, invalidate,
}

-- Two requests of one address at the times 5 and 8.
abbrev hits : Hits
hits = ("1.2.3.4", 5 ∷ 8 ∷ []) ∷ []

hits-Tracks : Tracks 60 8 (deque "1.2.3.4" hits) (5 ∷ 8 ∷ [])
unfolding get_or
hits-Tracks = record {
  ascending = (omega arith, (omega arith, tt), (omega arith, tt, tt));
  same = λ t later. refl;
}

allow-IsDecided_example :
    IsDecided 60 2 9 "1.2.3.4" hits (5 ∷ 8 ∷ []) (Window.allow 1 60 "1.2.3.4" 2 9 hits)
allow-IsDecided_example =
    allow-IsDecided 1 60 2 8 9 "1.2.3.4" hits (5 ∷ 8 ∷ []) (omega arith) (omega arith) (refl, tt)
      hits-Tracks

abbrev hits_after : Hits
hits_after = ("1.2.3.4", 5 ∷ 8 ∷ 9 ∷ []) ∷ []

allowed : Window.allow 1 60 "1.2.3.4" 3 9 hits ≡ some (hits_after, (true, 0))
unfolding Window.allow Window.accept Window.pop_expired Window.prune get_or insert
allowed = refl

allow_keeps_keys_example : IsUnpruned "1.2.3.4" hits hits_after
allow_keeps_keys_example =
    allow_keeps_keys 1 60 3 9 "1.2.3.4" hits hits_after (true, 0) (refl, tt) allowed

abbrev cap_of_three : DailyCap
cap_of_three = record { cap = 3; day = some 41; count = 2 }

-- The tables restricted to ASCII.
abbrev ascii : Unicode
ascii = record {
  is_space = λ c. c == 32;
  is_word = λ c. leb 48 c && leb c 57 || leb 65 c && leb c 90 || leb 97 c && leb c 122;
  lower = λ s. s;
}

riot_id-clean : clean_param ascii (some (codes " ann#NA1")) ≡ ok (codes "ann#NA1")
unfolding clean_param strip strip_left strip_right contains is_prefix
riot_id-clean = refl

riot_id-valid : validate_riot_id ascii (some (codes " ann#NA1")) ≡ ok (codes "ann#NA1")
unfolding validate_riot_id clean_param strip strip_left strip_right contains is_prefix is_riot_id
    is_riot_id_from is_tag is_name_char
riot_id-valid = refl

validate_riot_id-IsSafe_example :
    IsSafe ascii (codes "ann#NA1") × (is_riot_id ascii (codes "ann#NA1") ≡ true)
validate_riot_id-IsSafe_example =
    validate_riot_id-IsSafe ascii (some (codes " ann#NA1")) (codes "ann#NA1") riot_id-valid

abbrev cold : Cache String ℕ
cold = record { ttl = 60; store = [] }

abbrev writes : List (Write String ℕ)
writes = filled 1 "a" 4 ∷ cleared ∷ filled 9 "a" 5 ∷ []

-- Only small values are computed.
abbrev IsSmall : String → ℕ → ℕ → Type 0
IsSmall key t v = v ≤ 5

cold-holds : (key : String) (t v : ℕ) → lookup key cold.store ≡ some (t, v) → IsSmall key t v
unfolding lookup
cold-holds key t v found = absurd (cc)

hit : probe 12 "a" (run writes cold) ≡ some 5
unfolding probe run fill invalidate lookup insert
hit = refl

probe_fresh_example : (t : ℕ) × IsSmall "a" t 5 × (12 < t + (run writes cold).ttl)
probe_fresh_example =
    probe_fresh IsSmall writes cold 12 "a" 5 (omega arith, (omega arith, tt)) cold-holds hit

miss : probe 1 "a" cold ≡ none
unfolding probe lookup
miss = refl

abbrev settings : Settings
settings = record { rate_per_min = 120; player_rate_per_min = 12; riot_daily_cap = 20000 }

abbrev guards : Guards
guards = record { global_hits = hits; player_hits = []; daily = cap_of_three }

abbrev IsAnswered : Type 0
IsAnswered =
    (answer : Guards × Verdict) × (guard 1 settings 9 41 (codes "/player/ann") "1.2.3.4" guards
      ≡ some answer)
    × IsFrugal (codes "/player/ann") guards answer

guard-IsFrugal_example : IsAnswered
guard-IsFrugal_example = guard-IsFrugal 1 settings 9 41 (codes "/player/ann") "1.2.3.4" guards
