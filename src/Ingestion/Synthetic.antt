-- ===== src/Ingestion/Synthetic.antt =====
-- ingestion/synthetic.py. The random generator, `uuid4` and MD5 are parameters; the generator's state
-- is passed on, and a draw from an empty sequence, which would raise, does not occur.
pub mod Board
use tft_stats_analytics.Base.{
  ℕ, zero, suc, ◌+◌, ◌%◌, String, ◌<>◌, Bool, true, false, not, ◌&&◌, Option, none, some, List, [],
  ◌∷◌, ◌++◌, map, if◌then◌else◌, str_eq, ◌==◌,
}
use tft_stats_analytics.Base.Dict.{get_or, member, string_eq}
use tft_stats_analytics.Base.Float.{Float, sub}
use tft_stats_analytics.Base.Sort.{sort_by}
use tft_stats_analytics.Proto.{BoardUnit, PlayerResult, MatchEvent}
use tft_stats_analytics.TftData.{high_elo_favorites, trap_augment}
use tft_stats_analytics.TftData.Champions.{champion_cost}
use tft_stats_analytics.TftData.Items.{items}
use tft_stats_analytics.TftData.Augments.{augments}
use tft_stats_analytics.TftData.Comps.{Comp, comps}

-- `random.Random`, and `uuid4().hex[:n]`, with the state of both.
pub record Rng (F : Type 0) : Type 1 where
  pub State : Type 0
  pub randint : ℕ → ℕ → State → ℕ × State
  -- `choices([a, b], weights=[v, w])[0]`, on the items with their weights
  pub pick : ℕ × ℕ → ℕ × ℕ → State → ℕ × State
  -- `choice` of a sequence with a first item
  pub choice : {A : Type 0} → A → List A → State → A × State
  pub sample : {A : Type 0} → List A → ℕ → State → List A × State
  -- `gauss(0, 0.12)`
  pub gauss : State → F × State
  pub uuid : ℕ → State → String × State

-- `_HIGH_TIERS`
abbrev pub high_tiers : List String
high_tiers = "DIAMOND" ∷ "MASTER" ∷ "GRANDMASTER" ∷ "CHALLENGER" ∷ []

-- `md5_head` is `int(hashlib.md5(s).hexdigest()[:8], 16)`.
module _ (fl : Float) (md5_head : String → ℕ) where
  open fl use {F, of_nat, mul, div, add, order}

  abbrev pub hundredths : ℕ → F
  hundredths n = div (of_nat n) (of_nat 100)

  -- `_comp_strength`
  unfoldable pub comp_strength : String → F
  comp_strength comp_id =
      sub fl (mul (hundredths (md5_head comp_id % 100)) (hundredths 32)) (hundredths 16)

  -- The body of the loop over the units.
  unfoldable pub unit_bias : String → String → F → F
  unfolding get_or champion_cost member high_elo_favorites
  unit_bias tier u score =
      let score' = sub fl score (mul (of_nat (get_or 2 u champion_cost)) (hundredths 4)) in
      if member u high_elo_favorites && member tier high_tiers
      then sub fl score' (hundredths 8)
      else score'

  unfoldable pub units_bias : String → List String → F → F
  unfolding unit_bias
  units_bias tier [] score = score
  units_bias tier (u ∷ us) score = units_bias tier us (unit_bias tier u score)

  -- `_placement_bias`
  unfoldable pub placement_bias : List String → List String → String → String → F
  unfolding comp_strength units_bias member
  placement_bias units augs tier comp_id =
      let score =
        units_bias tier units (if str_eq comp_id "" then of_nat 0 else comp_strength comp_id) in
      if member trap_augment augs then add score (hundredths 10) else score

  module _ (rng : Rng F) where
    open rng use {State, randint, pick, choice, sample, gauss, uuid}

    abbrev pub is_carry : Option String → String → Bool
    is_carry none cid = false
    is_carry (some carry) cid = str_eq cid carry

    -- The number of items of a unit.
    unfoldable pub draw_count : Option String → String → State → ℕ × State
    draw_count carry cid s =
        if is_carry carry cid
        then choice 2 (3 ∷ []) s
        else elim carry [ none ↦ pick (0, 60) (1, 40) s | some c ↦ pick (0, 75) (1, 25) s ]

    abbrev pub draw_items : ℕ × State → List String × State
    draw_items (n, s) = if n == 0 then ([], s) else sample items n s

    -- The body of the loop over the units of a comp.
    unfoldable pub draw_unit : Option String → String → State → BoardUnit × State
    unfolding draw_count items
    draw_unit carry cid s =
        let drawn = draw_items (draw_count carry cid s) in
        let star = randint 1 3 drawn.1 in
        (record { character_id = cid; tier = star.0; items = drawn.0 }, star.1)

    unfoldable pub draw_units : Option String → List String → State → List BoardUnit × State
    unfolding draw_unit
    draw_units carry [] s = ([], s)
    draw_units carry (cid ∷ cids) s =
        let unit = draw_unit carry cid s in
        let rest = draw_units carry cids unit.1 in (unit.0 ∷ rest.0, rest.1)

    -- `_comp_board` with the drawn comp
    unfoldable pub comp_board : Comp × State → Comp × (List BoardUnit × State)
    unfolding draw_units
    comp_board (comp, s) = (comp, draw_units comp.carry comp.units s)

    abbrev pub draw_comp : List Comp → State → Option (Comp × State)
    draw_comp [] s = none
    draw_comp (c ∷ cs) s = some (choice c cs s)

    -- A scored board: its strength, units and augments.
    abbrev pub Scored : Type 0
    Scored = F × (List BoardUnit × List String)

    -- The body of the first loop, after the board.
    unfoldable pub score_board : String → Comp × (List BoardUnit × State) → Scored × State
    unfolding placement_bias augments
    score_board tier (comp, (units, s)) =
        let n = randint 2 3 s in
        let augs = sample augments n.0 n.1 in
        let noise = gauss augs.1 in
        (
          (add (placement_bias comp.units augs.0 tier comp.comp_id) noise.0, (units, augs.0)),
          noise.1,
        )

    -- The first loop: `n` boards.
    unfoldable pub draw_boards : String → ℕ → State → List Scored × State
    draw_boards tier zero s = ([], s)
    draw_boards tier (suc n) s = elim (draw_comp comps s) [
      | none ↦ ([], s)
      | some drawn ↦
          let scored = score_board tier (comp_board drawn) in
          let rest = draw_boards tier n scored.1 in (scored.0 ∷ rest.0, rest.1)
    ]

    -- The second loop, from a placement on.
    unfoldable pub place_players : ℕ → List Scored → State → List PlayerResult × State
    place_players placement [] s = ([], s)
    place_players placement ((strength, (units, augs)) ∷ scored) s =
        let id = uuid 16 s in
        let rounds = randint 28 42 id.1 in
        let rest = place_players (placement + 1) scored rounds.1 in
        (
          record {
            puuid = "puuid_" <> id.0;
            placement = placement;
            units = units;
            augments = augs;
            rounds_played = rounds.0;
          }
              ∷ rest.0,
          rest.1,
        )

    -- `generate_match`; `now` is the time in milliseconds
    unfoldable pub generate_match :
        String → String → String → String → ℕ → ℕ → State → MatchEvent × State
    generate_match region tier patch node_id seq now s =
        let id = uuid 12 s in
        let boards = draw_boards tier 8 id.1 in
        let placed = place_players 1 (sort_by ⦃o = order⦄ (λ t. t.0) boards.0) boards.1 in
        (
          record {
            match_id = region <> ("_" <> id.0);
            region = region;
            patch = patch;
            tier = tier;
            players = placed.0;
            clock = (node_id, seq) ∷ [];
            timestamp = now;
          },
          placed.1,
        )
