-- ===== src/Ingestion/RiotClient.antt =====
-- `RiotClient` of ingestion/riot_client.py. What the server answers to the n-th request of a URL is a
-- parameter. A request takes a token of the rate limiter first, and waits for it.
pub mod Normalize
pub mod Retry
use tft_stats_analytics.Base.{
  ℕ, zero, suc, ◌+◌, String, ◌<>◌, Option, none, some, List, [], ◌∷◌, take, if◌then◌else◌, str_eq,
}
use tft_stats_analytics.Base.Dict.{lookup, string_eq}
use tft_stats_analytics.Base.Result.{Result, ok, err, not_none, ◌>>=◌}
use tft_stats_analytics.RiotPayload.{RawLeague}
use tft_stats_analytics.TftData.{region_platform, region_cluster}

-- What the code raises: a missing key of a table, or an operation on `None`.
pub data Raised : Type 0 where
  key_error none_error : Raised

-- An answer of the server: a status with the `Retry-After` in seconds, and the body.
pub data Reply (A : Type 0) : Type 0 where
  body : A → Reply A
  throttled : ℕ → Reply A
  status : ℕ → Reply A

-- `TIER_ENDPOINTS`
abbrev pub tier_endpoints : List (String × String)
tier_endpoints =
    ("CHALLENGER", "/tft/league/v1/challenger")
    ∷ ("GRANDMASTER", "/tft/league/v1/grandmaster")
    ∷ ("MASTER", "/tft/league/v1/master")
    ∷ ("DIAMOND", "/tft/league/v1/entries/DIAMOND/I")
    ∷ ("PLATINUM", "/tft/league/v1/entries/PLATINUM/I")
    ∷ ("GOLD", "/tft/league/v1/entries/GOLD/I")
    ∷ ("SILVER", "/tft/league/v1/entries/SILVER/I")
    ∷ ("BRONZE", "/tft/league/v1/entries/BRONZE/I")
    ∷ ("IRON", "/tft/league/v1/entries/IRON/I")
    ∷ []

-- The end of `_get`: what it returned, the tokens it took and the seconds it slept.
pub record Fetched (A : Type 0) : Type 0 where
  pub answer : Option A
  pub tokens : ℕ
  pub slept : ℕ

-- What `_get` does with one answer: return, or sleep and ask again.
pub data Next (A : Type 0) : Type 0 where
  done : Option A → Next A
  again : ℕ → Next A

module _ {A : Type 0} where
  abbrev pub next_of : Reply A → Next A
  next_of (body a) = done (some a)
  next_of (throttled seconds) = again seconds
  next_of (status code) = done none

  -- `_get` from the n-th request on, on fuel: `none` is a run that still asks again. The server is
  -- asked once for every token.
  unfoldable pub get_from : (ℕ → Reply A) → ℕ → ℕ → ℕ → Option (Fetched A)
  get_from server zero n slept = none
  get_from server (suc fuel) n slept = elim (next_of (server n)) [
    | done a ↦ some (record { answer = a; tokens = n + 1; slept = slept })
    | again seconds ↦ get_from server fuel (n + 1) (slept + seconds)
  ]

  unfoldable pub get : (ℕ → Reply A) → ℕ → Option (Fetched A)
  unfolding get_from
  get server fuel = get_from server fuel 0 0

-- `if not data` and `data["entries"] if … else data`: an object with entries, or the list itself.
pub data LeaguePage : Type 0 where
  page : List RawLeague → LeaguePage
  bare : List RawLeague → LeaguePage

abbrev pub entries_of : Option LeaguePage → List RawLeague
entries_of none = []
entries_of (some (page es)) = es
entries_of (some (bare es)) = es

abbrev pub cons_given : Option String → List String → List String
cons_given none ids = ids
cons_given (some id) ids = if str_eq id "" then ids else id ∷ ids

-- The loop over the entries.
unfoldable pub puuids_of : List RawLeague → List String
puuids_of [] = []
puuids_of (e ∷ es) = cons_given e.puuid (puuids_of es)

-- The URL of `puuids_for_tier`; a region or a tier that the tables lack raises.
unfoldable pub league_url : String → String → Result Raised String
unfolding lookup region_platform
league_url region tier = do
  platform ← not_none key_error (lookup region region_platform)
  path ← not_none key_error (lookup tier tier_endpoints)
  ok ("https://" <> (platform <> (".api.riotgames.com" <> path)))

-- `puuids_for_tier`, from what `_get` returned
unfoldable pub puuids_for_tier : ℕ → Option LeaguePage → List String
unfolding puuids_of
puuids_for_tier limit data_ = puuids_of (take limit (entries_of data_))

abbrev pub or_empty : Option (List String) → List String
or_empty none = []
or_empty (some ids) = ids

-- `match_ids`, whose text of the count is an argument
unfoldable pub match_ids_url : String → String → String → Result Raised String
unfolding lookup region_cluster
match_ids_url region puuid count = do
  cluster ← not_none key_error (lookup region region_cluster)
  ok (
      "https://"
      <> (cluster
          <> (".api.riotgames.com/tft/match/v1/matches/by-puuid/"
              <> (puuid <> ("/ids?count=" <> count)))))

-- `match`
unfoldable pub match_url : String → String → Result Raised String
unfolding lookup region_cluster
match_url region match_id = do
  cluster ← not_none key_error (lookup region region_cluster)
  ok ("https://" <> (cluster <> (".api.riotgames.com/tft/match/v1/matches/" <> match_id)))
