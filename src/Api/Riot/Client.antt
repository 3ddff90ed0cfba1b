-- ===== src/Api/Riot/Client.antt =====
-- `RiotTFT` of api/riot.py: the routing of a tag, and `_get` with its errors. What the server answers
-- to each request is a parameter; the sleep before a retry is left out.
pub mod Settled
use tft_stats_analytics.Base.{
  ℕ, zero, suc, ◌+◌, ◌*◌, max, min, String, Bool, true, false, not, ◌&&◌, ◌||◌, Option, none, some,
  List, [], ◌∷◌, ltb, ◌==◌, if◌then◌else◌,
}
use tft_stats_analytics.Base.Dict.{get_or, string_eq}
use tft_stats_analytics.Base.Result.{Result, ok, err}

abbrev pub Route : Type 0
Route = String × (String × String)

abbrev to_americas : String → String → String × Route
to_americas tag platform = (tag, (platform, ("americas", "americas")))

abbrev to_europe : String → String → String × Route
to_europe tag platform = (tag, (platform, ("europe", "europe")))

abbrev to_asia : String → String → String × Route
to_asia tag platform = (tag, (platform, ("asia", "asia")))

abbrev to_sea : String → String → String × Route
to_sea tag platform = (tag, (platform, ("asia", "sea")))

-- `_ROUTING`: the platform, the account cluster and the match cluster of a tag.
unfoldable pub routing : List (String × Route)
routing =
    to_americas "NA1" "na1"
    ∷ to_americas "NA" "na1"
    ∷ to_americas "BR1" "br1"
    ∷ to_americas "BR" "br1"
    ∷ to_americas "LAN" "la1"
    ∷ to_americas "LA1" "la1"
    ∷ to_americas "LAS" "la2"
    ∷ to_americas "LA2" "la2"
    ∷ ("OCE", ("oc1", ("americas", "sea")))
    ∷ ("OC1", ("oc1", ("americas", "sea")))
    ∷ to_europe "EUW" "euw1"
    ∷ to_europe "EUW1" "euw1"
    ∷ to_europe "EUNE" "eun1"
    ∷ to_europe "EUN1" "eun1"
    ∷ to_europe "EUNE1" "eun1"
    ∷ to_europe "TR" "tr1"
    ∷ to_europe "TR1" "tr1"
    ∷ to_europe "RU" "ru"
    ∷ to_asia "KR" "kr"
    ∷ to_asia "KR1" "kr"
    ∷ to_asia "JP" "jp1"
    ∷ to_asia "JP1" "jp1"
    ∷ to_sea "VN2" "vn2"
    ∷ to_sea "SG2" "sg2"
    ∷ to_sea "TW2" "tw2"
    ∷ to_sea "TH2" "th2"
    ∷ to_sea "PH2" "ph2"
    ∷ []

-- `route`; `upper` is Python's upper case
unfoldable pub route : (String → String) → String → Route
unfolding get_or routing
route upper tag = get_or ("na1", ("americas", "americas")) (upper tag) routing

-- What `_get` raises: a `RiotError`, or the error of `json.loads`, which is none.
pub data Failure : Type 0 where
  too_large invalid_key network : Failure
  api : ℕ → Failure
  not_json : Failure

-- A body of so many bytes, with what it decodes to; an HTTP error; no connection.
pub data Answer (A : Type 0) : Type 0 where
  body : ℕ → Option A → Answer A
  http_error : ℕ → Answer A
  unreachable : Answer A

-- `_MAX_RESPONSE_BYTES`
abbrev pub max_response_bytes : ℕ
max_response_bytes = 8 * 1024 * 1024

-- One run of `_get` up to its recursive call.
pub data Attempt (A : Type 0) : Type 0 where
  returned : Result Failure (Option A) → Attempt A
  retried : Attempt A

module _ {A : Type 0} where
  abbrev pub decoded : Option A → Attempt A
  decoded none = returned (err not_json)
  decoded (some a) = returned (ok (some a))

  unfoldable pub attempt : Bool → Answer A → Attempt A
  attempt again (body size content) =
      if ltb max_response_bytes size then returned (err too_large) else decoded content
  attempt again (http_error code) =
      if code == 404
      then returned (ok none)
      else if code == 429 && not again
      then retried
      else if code == 401 || code == 403
      then returned (err invalid_key)
      else returned (err (api code))
  attempt again unreachable = returned (err network)

  -- `_get`: the server answers the n-th request, counted from 0, with `server n`. With the result,
  -- how many requests were made; `none` is for running out of fuel.
  unfoldable pub get_from : (ℕ → Answer A) → ℕ → Bool → ℕ → Option (Result Failure (Option A) × ℕ)
  unfolding attempt
  get_from server zero again n = none
  get_from server (suc fuel) again n = elim (attempt again (server n)) [
    | returned r ↦ some (r, n + 1)
    | retried ↦ get_from server fuel true (n + 1)
  ]

  unfoldable pub get : (ℕ → Answer A) → ℕ → Option (Result Failure (Option A) × ℕ)
  unfolding get_from
  get server fuel = get_from server fuel false 0

-- `match_ids`: the count is clamped.
unfoldable pub page_size : ℕ → ℕ
page_size count = max 1 (min count 50)
