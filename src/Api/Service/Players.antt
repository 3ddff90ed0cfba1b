-- ===== src/Api/Service/Players.antt =====
-- `Service.player_analysis` of api/service.py, and `suggest` of api/riot.py behind `player_suggest`.
-- What Riot answers depends on the key. The set of known ids is kept in the order in which they came;
-- only ids that differ in nothing but case depend on it.
pub mod Answers
use tft_stats_analytics.Base.{
  ℕ, String, Bool, true, false, not, Option, none, some, List, [], ◌∷◌, ◌++◌, str_eq, keep_if, take,
  if◌then◌else◌,
}
use tft_stats_analytics.Base.Dict.{member, string_eq}
use tft_stats_analytics.Base.Float.{Float}
use tft_stats_analytics.Base.Order.{str_order, str_leq}
use tft_stats_analytics.Base.Result.{Result, ok, err}
use tft_stats_analytics.Base.Sort.{sort_by}
use tft_stats_analytics.Base.Text.{strip_text, partition, contains_word}
use tft_stats_analytics.Api.Riot.Client.{Failure, too_large, invalid_key, network, api, not_json}
use tft_stats_analytics.Api.Riot.Standing.{Python}
use tft_stats_analytics.Api.Riot.Profile.{
  Source, Known, Stopped, riot, on_none, Profile, build_player_profile,
}
use text.Mathlib.Text.{starts_with}

-- The keys that stand for none.
abbrev pub no_keys : List String
no_keys = "" ∷ "synthetic" ∷ "none" ∷ []

-- `api_key or self.api_key`
abbrev pub key_or : Option String → Option String → Option String
key_or none own = own
key_or (some key) own = if str_eq key "" then own else some key

-- `key and key.lower() not in …`
unfoldable pub usable_key : Python → Option String → Option String
unfolding member
usable_key py none = none
usable_key py (some key) =
    if str_eq key "" then none else if member (py.lower key) no_keys then none else some key

-- The two parts around the `#`, stripped.
unfoldable pub riot_id : Python → String → String × String
unfolding strip_text partition
riot_id py name =
    let parts = partition b'#' (strip_text py.is_space name) in
    (strip_text py.is_space parts.0, strip_text py.is_space parts.1)

module _ (fl : Float) where
  -- What the route answers.
  pub data Analysis : Type 0 where
    needs_api_key needs_tag : String → Analysis
    riot_error : String → Failure → Analysis
    analysed : Profile fl → Analysis

  -- The `except RiotError`: the error of `json.loads` is none, and passes.
  abbrev pub caught : String → Result Stopped (Profile fl) → Result Stopped Analysis
  caught name (ok p) = ok (analysed p)
  caught name (err on_none) = err on_none
  caught name (err (riot not_json)) = err (riot not_json)
  caught name (err (riot too_large)) = ok (riot_error name too_large)
  caught name (err (riot invalid_key)) = ok (riot_error name invalid_key)
  caught name (err (riot network)) = ok (riot_error name network)
  caught name (err (riot (api code))) = ok (riot_error name (api code))

  -- After the call for the profile, which is only made if there is a tag.
  abbrev pub tagged :
      String → Bool → Known → Known × Result Stopped (Profile fl) → Known × Result Stopped Analysis
  tagged name true k built = (k, ok (needs_tag name))
  tagged name false k built = (built.0, caught name built.1)

  module _ (py : Python) (answers : String → Source) (today : ℕ) where
    -- After the parse of the name, with the key.
    unfoldable pub analyse :
        String → Option String → String × String → Known → Known × Result Stopped Analysis
    unfolding build_player_profile
    analyse name none id k = (k, ok (needs_api_key name))
    analyse name (some key) (game_name, tag) k =
        tagged name (str_eq tag "") k
          (build_player_profile fl py (answers key) today game_name tag k)

    -- `player_analysis`; `own` is the configured key
    unfoldable pub player_analysis :
        String → Option String → Option String → Known → Known × Result Stopped Analysis
    unfolding usable_key riot_id analyse
    player_analysis name api_key own k =
        analyse name (usable_key py (key_or api_key own)) (riot_id py name) k

-- The ids that begin with the text, and then those that have it elsewhere.
unfoldable pub matching : Python → String → List String → List String
unfolding member contains_word
matching py ql ids =
    let starts = keep_if (λ r. starts_with (py.lower r) ql) ids in
    starts
    ++ keep_if (λ r. if contains_word ql (py.lower r) then not (member r starts) else false) ids

-- `suggest`
unfoldable pub suggest : Python → String → ℕ → List String → List String
unfolding strip_text sort_by matching
suggest py q limit ids =
    let ql = py.lower (strip_text py.is_space q) in
    let sorted : List String = sort_by (λ r. py.lower r) ids in
    take limit (if str_eq ql "" then sorted else matching py ql sorted)
