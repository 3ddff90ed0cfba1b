-- ===== src/Api/Security/Middleware.antt =====
-- `rate_limit_middleware` of api/security.py: which answer a request gets before it is routed. The
-- path is a text; `ip` is what `_client_ip` returned. A response that passes is the route's own.
pub mod Spending
use tft_stats_analytics.Base.{
  ℕ, ◌*◌, String, ◌<>◌, Bool, true, false, ◌&&◌, ◌||◌, Option, none, some, ltb, if◌then◌else◌,
}
use tft_stats_analytics.Api.Security.Params.{Text, codes, is_prefix}
use tft_stats_analytics.Api.Security.Window as Window
use tft_stats_analytics.Api.Security.Window.{Hits}
use tft_stats_analytics.Api.Security.Daily as Daily
use tft_stats_analytics.Api.Security.Daily.{DailyCap}

-- The settings; 0 turns a limit off.
pub record Settings : Type 0 where
  pub rate_per_min : ℕ
  pub player_rate_per_min : ℕ
  pub riot_daily_cap : ℕ

-- `_global_rl`, `_player_rl` and `_riot_daily`
pub record Guards : Type 0 where
  pub global_hits : Hits
  pub player_hits : Hits
  pub daily : DailyCap

pub data Verdict : Type 0 where
  rate_limited : ℕ → Verdict
  unavailable passed : Verdict

-- `is_riot`
unfoldable pub is_riot_path : Text → Bool
unfolding is_prefix
is_riot_path path = is_prefix (codes "/player/") path || is_prefix (codes "/players/suggest") path

module _ (second : ℕ) where
  abbrev pub window : ℕ
  window = 60 * second

  -- A window's answer where the limit is on, and a pass where it is off; `none`: `allow` raises.
  unfoldable pub limited : Bool → String → ℕ → ℕ → Hits → Option (Hits × (Bool × ℕ))
  unfolding Window.allow
  limited on key limit now hits =
      if on && ltb 0 limit
      then Window.allow second window key limit now hits
      else some (hits, (true, 0))

  -- The daily cap, for a path that spends quota.
  unfoldable pub spend : ℕ → Bool → Settings → Guards → Guards × Verdict
  unfolding Daily.allow
  spend today is_lookup l g =
      let next = Daily.allow today g.daily in
      if is_lookup && ltb 0 l.riot_daily_cap
      then (record g { daily = next.0 }, if next.1 then passed else unavailable)
      else (g, passed)

  abbrev pub finish : ℕ → Bool → Settings → Guards → Bool × ℕ → Guards × Verdict
  finish today is_lookup l g (false, retry) = (g, rate_limited retry)
  finish today is_lookup l g (true, retry) = spend today is_lookup l g

  unfoldable pub guard : Settings → ℕ → ℕ → Text → String → Guards → Option (Guards × Verdict)
  unfolding is_riot_path limited is_prefix spend
  guard l now today path ip g = elim (limited true ("g:" <> ip) l.rate_per_min now g.global_hits) [
    | none ↦ none
    | some first ↦
        elim (limited (first.1.0 && is_riot_path path) ("p:" <> ip) l.player_rate_per_min now
          g.player_hits) [
            | none ↦ none
            | some then_ ↦ some (
                finish today (is_prefix (codes "/player/") path) l
                  (record g { global_hits = first.0; player_hits = then_.0 })
                  (first.1.0 && then_.1.0, if first.1.0 then then_.1.1 else first.1.1))
          ]
  ]
