-- ===== src/Api/Service/Players/Answers.antt =====
-- What `player_analysis` of api/service.py lets through, and what `suggest` of api/riot.py suggests.
use tft_stats_analytics.Base.{
  ℕ, ◌≤◌, String, ◌≡◌, refl, ◌⊎◌, inl, inr, Bool, true, false, not, Option, none, some, List, [],
  ◌∷◌, arith, str_eq, eq_iff, keep_if, length, length-take, All, All-append, All-take, All-map,
  All-keep_if, All-keep_if_of, if◌then◌else◌,
}
use tft_stats_analytics.Base.Dict.{member, members, string_eq}
use tft_stats_analytics.Base.Float.{Float}
use tft_stats_analytics.Base.Order.{str_order}
use tft_stats_analytics.Base.Result.{Result, ok, err}
use tft_stats_analytics.Base.Sort.{sort_by, All-sort_by}
use tft_stats_analytics.Base.Text.{strip_text, contains_word}
use tft_stats_analytics.Api.Riot.Client.{too_large, invalid_key, network, api, not_json}
use tft_stats_analytics.Api.Riot.Standing.{Python}
use tft_stats_analytics.Api.Riot.Profile.{
  Source, Known, Stopped, riot, on_none, Profile, build_player_profile,
}
use tft_stats_analytics.Api.Riot.Profile.Kept.{
  is_account, Keeps, Keeps-refl, build_player_profile-Keeps,
}
use tft_stats_analytics.Api.Service.Players.{
  key_or, usable_key, riot_id, Analysis, caught, tagged, analyse, player_analysis, matching,
  suggest,
}
use text.Mathlib.Text.{starts_with}
use text.Mathlib.TextEquality.{starts_with_iff}
use text.Mathlib.TextLemmas.{nil-append}

module _ (fl : Float) where
  -- The exceptions that are no `RiotError`.
  abbrev pub IsUncaught : Stopped → Type 0
  IsUncaught e = (e ≡ riot not_json) ⊎ (e ≡ on_none)

  abbrev pub RaisesOnly : Result Stopped (Analysis fl) → Type 0
  RaisesOnly (ok a) = Unit
  RaisesOnly (err e) = IsUncaught e

  caught-RaisesOnly :
      (name : String) (r : Result Stopped (Profile fl)) → RaisesOnly (caught fl name r)
  caught-RaisesOnly name (ok p) = tt
  caught-RaisesOnly name (err on_none) = inr refl
  caught-RaisesOnly name (err (riot not_json)) = inl refl
  caught-RaisesOnly name (err (riot too_large)) = tt
  caught-RaisesOnly name (err (riot invalid_key)) = tt
  caught-RaisesOnly name (err (riot network)) = tt
  caught-RaisesOnly name (err (riot (api code))) = tt

  module _ (py : Python) (answers : String → Source) (today : ℕ) where
    -- The answer to the account request that an analysis makes, if it makes one.
    abbrev pub is_asked : String → Option String → String × String → Bool
    is_asked other none id = false
    is_asked other (some key) id = is_account other ((answers key).account id.0 id.1)

    -- What the analysis leaves, and how it can raise.
    pub record IsAnswered (other : String) (k : Known) (r : Known × Result Stopped (Analysis fl))
        : Type 0 where
      pub keeps : Keeps other k r.0
      pub raises : RaisesOnly r.1

    tagged-IsAnswered :
        (name other : String) (no_tag : Bool) (k : Known)
        (built : Known × Result Stopped (Profile fl))
        → Keeps other k built.0
        → IsAnswered other k (tagged fl name no_tag k built)
    tagged-IsAnswered name other true k built kept = record {
      keeps = Keeps-refl other k;
      raises = tt;
    }
    tagged-IsAnswered name other false k built kept = record {
      keeps = kept;
      raises = caught-RaisesOnly name built.1;
    }

    analyse-IsAnswered :
        (name other : String) (key : Option String) (id : String × String) (k : Known)
        → is_asked other key id ≡ false
        → IsAnswered other k (analyse fl py answers today name key id k)
    unfolding analyse
    analyse-IsAnswered name other none id k differs = record {
      keeps = Keeps-refl other k;
      raises = tt;
    }
    analyse-IsAnswered name other (some key) (game_name, tag) k differs =
        tagged-IsAnswered name other (str_eq tag "") k
          (build_player_profile fl py (answers key) today game_name tag k)
          (build_player_profile-Keeps fl py (answers key) today other game_name tag k differs)

    -- An analysis never raises a `RiotError`: what it raises is the error of a body that does not
    -- decode, or that of an operation on `None`. In every case it forgets no known id and leaves the
    -- rank history of every player but the one that is found as it was.
    pub player_analysis-IsAnswered :
        (name other : String) (api_key own : Option String) (k : Known)
        → is_asked other (usable_key py (key_or api_key own)) (riot_id py name) ≡ false
        → IsAnswered other k (player_analysis fl py answers today name api_key own k)
    unfolding player_analysis
    player_analysis-IsAnswered name other api_key own k differs =
        analyse-IsAnswered name other (usable_key py (key_or api_key own)) (riot_id py name) k
          differs

starts-contains : (word s : String) → starts_with s word ≡ true → contains_word word s ≡ true
unfolding contains_word
starts-contains word String.[] h = h
starts-contains word (String.◌∷◌ c s) h = rw h refl

All-and :
    {A : Type 0} (P Q : A → Type 0) (xs : List A) → All P xs → All Q xs → All (λ x. P x × Q x) xs
All-and P Q [] p q = tt
All-and P Q (x ∷ xs) p q = ((p.0, q.0), All-and P Q xs p.1 q.1)

module _ (py : Python) where
  abbrev pub has_text : String → String → Bool
  has_text ql r = contains_word ql (py.lower r)

  -- A known id that contains the text, whatever the case.
  abbrev pub IsMatch : String → List String → String → Type 0
  IsMatch ql ids r = (member r ids ≡ true) × (has_text ql r ≡ true)

  found-contains :
      (ql s : String) (b : Bool)
      → (if contains_word ql s then b else false) ≡ true
      → contains_word ql s ≡ true
  found-contains ql s b h = ground arith

  matching-IsMatch :
      (ql : String) (known ids : List String)
      → All (λ r. member r known ≡ true) ids
      → All (IsMatch ql known) (matching py ql ids)
  unfolding matching
  matching-IsMatch ql known ids there =
      let starts : List String = keep_if (λ r. starts_with (py.lower r) ql) ids in
      let inside : String → Bool =
        λ r. if contains_word ql (py.lower r) then not (member r starts) else false in
      All-append (IsMatch ql known) starts (keep_if inside ids)
        (All-and (λ r. member r known ≡ true) (λ r. has_text ql r ≡ true) starts
          (All-keep_if_of (λ r. member r known ≡ true) (λ r. starts_with (py.lower r) ql) ids there)
          (All-keep_if (λ r. has_text ql r ≡ true) (λ r. starts_with (py.lower r) ql) ids
            (λ r h. starts-contains ql (py.lower r) h)))
        (All-and (λ r. member r known ≡ true) (λ r. has_text ql r ≡ true) (keep_if inside ids)
          (All-keep_if_of (λ r. member r known ≡ true) inside ids there)
          (All-keep_if (λ r. has_text ql r ≡ true) inside ids
            (λ r h. found-contains ql (py.lower r) (not (member r starts)) h)))

  contains_none : (s : String) → contains_word "" s ≡ true
  contains_none s = starts-contains "" s (starts_none s)
    where
      starts_none : (t : String) → starts_with t "" ≡ true
      starts_none t = (starts_with_iff t "").1 (t, nil-append t)

  -- The suggestions are no more than the limit, each of them a known id that contains the stripped
  -- text, whatever the case.
  pub suggest-IsMatch :
      (q : String) (limit : ℕ) (ids : List String)
      → (length (suggest py q limit ids) ≤ limit)
        × All (IsMatch (py.lower (strip_text py.is_space q)) ids) (suggest py q limit ids)
  unfolding suggest
  suggest-IsMatch q limit ids = (
    omega (arith, length-take limit (if str_eq ql "" then sorted else matching py ql sorted)),
    All-take (IsMatch ql ids) limit (if str_eq ql "" then sorted else matching py ql sorted)
        (chosen (str_eq ql "") refl),
  )
    where
      ql : String
      ql = py.lower (strip_text py.is_space q)

      sorted : List String
      sorted = sort_by (λ r. py.lower r) ids

      known : All (λ r. member r ids ≡ true) sorted
      known = All-sort_by (λ r. py.lower r) (λ r. member r ids ≡ true) ids (members ids)

      chosen :
          (b : Bool)
          → str_eq ql "" ≡ b
          → All (IsMatch ql ids) (if b then sorted else matching py ql sorted)
      chosen true e =
          All-map (λ r h. (h, rw ((eq_iff ql "").0 e) (contains_none (py.lower r)))) sorted known
      chosen false e = matching-IsMatch ql ids sorted known
