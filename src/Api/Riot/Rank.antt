-- ===== src/Api/Riot/Rank.antt =====
-- Ranks and their history in api/riot.py: `rank_value` and `record_rank`. A date is the number of
-- its day; the text of a label is left to the caller, which only hands it on. The history file is
-- an association list; a load that fails gives the empty one.
pub mod Ladder
pub mod History
use tft_stats_analytics.Base.{
  ℕ, zero, suc, ◌+◌, ◌-◌, ◌*◌, String, Bool, true, false, not, ◌&&◌, ◌||◌, Option, none, some, List,
  [], ◌∷◌, ◌++◌, str_eq, ◌==◌, if◌then◌else◌, length, drop,
}
use tft_stats_analytics.Base.Dict.{lookup, get_or, insert, member, string_eq}

-- `_LADDER_T`
abbrev pub ladder_tiers : List String
ladder_tiers = "IRON" ∷ "BRONZE" ∷ "SILVER" ∷ "GOLD" ∷ "PLATINUM" ∷ "EMERALD" ∷ "DIAMOND" ∷ []

-- `_DIV_V`
abbrev pub division_value : List (String × ℕ)
division_value = ("IV", 0) ∷ ("III", 1) ∷ ("II", 2) ∷ ("I", 3) ∷ ("", 0) ∷ []

-- `_APEX_BASE`
abbrev pub apex_base : List (String × ℕ)
apex_base = ("MASTER", 2800) ∷ ("GRANDMASTER", 3300) ∷ ("CHALLENGER", 3800) ∷ []

-- `xs.index(x)`, where it is found
unfoldable pub index_of : String → List String → Option ℕ
index_of x [] = none
index_of x (y ∷ ys) =
    let rest = index_of x ys in
    if str_eq y x then some 0 else elim rest [ none ↦ none | some i ↦ some (suc i) ]

abbrev pub ladder_value : Option ℕ → String → ℕ → ℕ
ladder_value none division lp = 0
ladder_value (some i) division lp = i * 400 + get_or 0 division division_value * 100 + lp

abbrev pub value_of : Option ℕ → Option ℕ → String → ℕ → ℕ
value_of (some base) place division lp = base + lp
value_of none place division lp = ladder_value place division lp

unfoldable pub rank_value : String → String → ℕ → ℕ
rank_value tier division lp =
    value_of (lookup tier apex_base) (index_of tier ladder_tiers) division lp

-- What `_rank_from_league` returns.
pub record Rank : Type 0 where
  pub tier : String
  pub division : String
  pub lp : ℕ
  pub label : String
  pub wins : ℕ
  pub losses : ℕ

-- An entry of the history.
pub record Snapshot : Type 0 where
  pub date : ℕ
  pub tier : String
  pub division : String
  pub lp : ℕ
  pub rating : ℕ
  pub wins : ℕ
  pub losses : ℕ
  pub label : String

unfoldable pub snapshot : ℕ → Rank → Snapshot
unfolding rank_value
snapshot today r = record {
  date = today;
  tier = r.tier;
  division = r.division;
  lp = r.lp;
  rating = rank_value r.tier r.division r.lp;
  wins = r.wins;
  losses = r.losses;
  label = r.label;
}

-- Equal `(tier, division, lp)`.
abbrev pub same_signature : Snapshot → Snapshot → Bool
same_signature a b = str_eq a.tier b.tier && str_eq a.division b.division && a.lp == b.lp

-- The cases of `record_rank` on the last entry of the history: today's entry is replaced, a changed
-- rank is appended, an unchanged one is not.
unfoldable pub add_snapshot : Snapshot → List Snapshot → List Snapshot
add_snapshot snap [] = snap ∷ []
add_snapshot snap (h ∷ []) =
    if h.date == snap.date
    then snap ∷ []
    else if same_signature h snap
    then h ∷ []
    else h ∷ snap ∷ []
add_snapshot snap (h ∷ h' ∷ hist) = h ∷ add_snapshot snap (h' ∷ hist)

abbrev pub history_limit : ℕ
history_limit = 120

-- `hist[-120:]`
unfoldable pub keep_last : List Snapshot → List Snapshot
keep_last hist = drop (length hist - history_limit) hist

abbrev pub RankStore : Type 0
RankStore = List (String × List Snapshot)

-- `record_rank` on the loaded store: the store to save, and the history that it returns.
unfoldable pub record_rank : ℕ → String → Rank → RankStore → RankStore × List Snapshot
unfolding get_or insert add_snapshot snapshot keep_last
record_rank today puuid rank store =
    let hist = get_or [] puuid store in
    let hist' = keep_last (add_snapshot (snapshot today rank) hist) in
    if str_eq rank.tier "UNRANKED" then (store, hist) else (insert puuid hist' store, hist')
