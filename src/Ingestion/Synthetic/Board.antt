-- ===== src/Ingestion/Synthetic/Board.antt =====
-- The matches that ingestion/synthetic.py makes.
use tft_stats_analytics.Base.{
  ℕ, zero, suc, ◌+◌, String, ◌≡◌, refl, ap, ◌∙◌, List, [], ◌∷◌, map, length,
}
use tft_stats_analytics.Base.Float.{Float}
use tft_stats_analytics.Base.Sort.{sort_by, length-sort_by}
use tft_stats_analytics.TftData.Comps.{comps}
use tft_stats_analytics.Ingestion.Synthetic.{
  Rng, Scored, draw_boards, place_players, generate_match,
}

-- `n`, `n + 1`, …
abbrev pub counting : ℕ → ℕ → List ℕ
counting n zero = []
counting n (suc k) = n ∷ counting (n + 1) k

module _ (fl : Float) (md5_head : String → ℕ) (rng : Rng fl.F) where
  open rng use {State}

  placements-place_players :
      (n : ℕ) (scored : List (Scored fl md5_head rng)) (s : State)
      → map (λ p. p.placement) (place_players fl md5_head rng n scored s).0
        ≡ counting n (length scored)
  unfolding place_players
  placements-place_players n [] s = refl
  placements-place_players n ((strength, (units, augs)) ∷ scored) s =
      ap (◌∷◌ n) (placements-place_players (n + 1) scored _)

  length-draw_boards :
      (tier : String) (n : ℕ) (s : State) → length (draw_boards fl md5_head rng tier n s).0 ≡ n
  unfolding draw_boards comps
  length-draw_boards tier zero s = refl
  length-draw_boards tier (suc n) s = ap suc (length-draw_boards tier n _)

  -- Whatever is drawn, a generated match has eight players with the placements 1 to 8, and is of the
  -- region, the tier and the patch, with its number as the node's one clock entry.
  pub generate_match-IsRanked :
      (region tier patch node_id : String) (seq now : ℕ) (s : State)
      → (map
            (λ p. p.placement)
            (generate_match fl md5_head rng region tier patch node_id seq now s).0.players
          ≡ 1 ∷ 2 ∷ 3 ∷ 4 ∷ 5 ∷ 6 ∷ 7 ∷ 8 ∷ [])
        × ((generate_match fl md5_head rng region tier patch node_id seq now s).0.region ≡ region)
        × ((generate_match fl md5_head rng region tier patch node_id seq now s).0.tier ≡ tier)
        × ((generate_match fl md5_head rng region tier patch node_id seq now s).0.patch ≡ patch)
        × ((generate_match fl md5_head rng region tier patch node_id seq now s).0.clock
            ≡ (node_id, seq) ∷ [])
  unfolding generate_match
  generate_match-IsRanked region tier patch node_id seq now s =
      let boards = draw_boards fl md5_head rng tier 8 (rng.uuid 12 s).1 in
      (
        placements-place_players 1 (sort_by ⦃o = fl.order⦄ (λ t. t.0) boards.0) boards.1
            ∙ ap (counting 1) (
                length-sort_by ⦃o = fl.order⦄ (λ t. t.0) boards.0
                ∙ length-draw_boards tier 8 (rng.uuid 12 s).1),
        refl,
        refl,
        refl,
        refl,
      )
