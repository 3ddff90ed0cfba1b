-- ===== src/Processor/Aggregator/Samples.antt =====
-- `process_match` of processor/aggregator.py against the declarative count of its boards.
use tft_stats_analytics.Base.{
  ℕ, ◌+◌, String, ◌≡◌, ◌∙◌, Bool, true, false, ◌&&◌, ◌||◌, List, [], ◌∷◌, ◌++◌, append-nil,
  append_assoc, arith, str_eq, eq_iff, if◌then◌else◌, sum_of, any_of, replicate,
}
use tft_stats_analytics.Base.Count.{bit, count}
use tft_stats_analytics.Base.Dict.{member, add_key, member-add_key, string_eq}
use tft_stats_analytics.Proto.{BoardUnit, PlayerResult, MatchEvent}
use tft_stats_analytics.Processor.Aggregator.{
  Segment, EntityKey, StatAggregator, segment_eq, key_eq, segment_beq, samples, pair_id,
  add_players, segment_of, process_match,
}
use tft_stats_analytics.Processor.Aggregator.Label.{composition_label}
use tft_stats_analytics.Processor.Aggregator.Occurs.{
  gate, occurrences, hit, item_hits, items_hits, items_seen, units_hits, augments_hits, board_hits,
  samples-add_player,
}

member-items_seen :
    (items seen : List String) (id : String)
    → member id (items_seen items seen) ≡ (member id seen || member id items)
unfolding items_seen member
member-items_seen [] seen id = ground arith
member-items_seen (item ∷ items) seen id =
    ground (arith, member-items_seen items (add_key item seen) id, member-add_key item id seen)

gate-add : (b : Bool) (m n : ℕ) → gate b (m + n) ≡ gate b m + gate b n
gate-add b m n = ground arith

gate-and : (b c : Bool) (n : ℕ) → gate (b && c) n ≡ gate c (gate b n)
gate-and b c n = ground arith

-- 1 if the item is new to the board and the key is the item's.
abbrev once : Bool → Bool → ℕ
once seen here = if seen then 0 else bit here

once-or :
    (b seen here later : Bool)
    → gate b (once seen here) + gate b (once (seen || here) later)
      ≡ gate b (once seen (here || later))
once-or b seen here later = ground arith

module _ (segment : Segment) (k : EntityKey) where
  abbrev matches : Bool
  matches = segment_beq segment k.segment

  hit-eq :
      (entity_type entity_id : String)
      → bit (hit segment k entity_type entity_id)
        ≡ gate (str_eq entity_type k.entity_type && matches) (bit (str_eq entity_id k.entity_id))
  hit-eq entity_type entity_id = ground arith

  items_hits-eq :
      (champion : String) (items seen : List String)
      → items_hits segment k champion items seen
        ≡ gate
            (str_eq "champion_item" k.entity_type && matches)
            (count (λ item. str_eq (pair_id champion item) k.entity_id) items)
          + gate
              (str_eq "item" k.entity_type && matches)
              (once (member k.entity_id seen) (member k.entity_id items))
  unfolding items_hits item_hits member
  items_hits-eq champion [] seen = ground arith
  items_hits-eq champion (item ∷ items) seen = ground (
    arith,
    items_hits-eq champion items (add_key item seen),
    member-add_key item k.entity_id seen,
    eq_iff item k.entity_id,
  )

  units_hits-eq :
      (units : List BoardUnit) (seen : List String)
      → units_hits segment k units seen
        ≡ gate
            (str_eq "champion" k.entity_type && matches)
            (count (λ u. str_eq u.character_id k.entity_id) units)
          + gate (str_eq "champion_item" k.entity_type && matches) (
              sum_of
                (λ u. count (λ item. str_eq (pair_id u.character_id item) k.entity_id) u.items)
                units)
          + gate
              (str_eq "item" k.entity_type && matches)
              (once (member k.entity_id seen) (any_of (λ u. member k.entity_id u.items) units))
  unfolding units_hits
  units_hits-eq [] seen = ground arith
  units_hits-eq (u ∷ us) seen =
      let c = str_eq "champion" k.entity_type && matches in
      let ci = str_eq "champion_item" k.entity_type && matches in
      let id = k.entity_id in
      rw
        (
          units_hits-eq us (items_seen u.items seen),
          items_hits-eq u.character_id u.items seen,
          member-items_seen u.items seen id,
          hit-eq "champion" u.character_id,
        )
        (omega (
          arith,
          gate-add c (bit (str_eq u.character_id id)) (count (λ v. str_eq v.character_id id) us),
          gate-add ci (count (λ item. str_eq (pair_id u.character_id item) id) u.items)
              (sum_of (λ v. count (λ item. str_eq (pair_id v.character_id item) id) v.items) us),
          once-or (str_eq "item" k.entity_type && matches) (member id seen) (member id u.items)
              (any_of (λ v. member id v.items) us),
        ))

  augments_hits-eq :
      (augments : List String)
      → augments_hits segment k augments
        ≡ gate
            (str_eq "augment" k.entity_type && matches)
            (count (λ aug. str_eq aug k.entity_id) augments)
  unfolding augments_hits
  augments_hits-eq [] = ground arith
  augments_hits-eq (aug ∷ augs) = ground (arith, augments_hits-eq augs)

  -- Gated parts of a sum, gated once more as a whole.
  gate_sum :
      (c ci i a co : Bool) (m n o p q : ℕ)
      → gate (c && matches) m
          + gate (ci && matches) n
          + gate (i && matches) o
          + (gate (a && matches) p + gate (co && matches) q)
        ≡ gate matches (gate c m + gate ci n + gate i o + gate a p + gate co q)
  gate_sum c ci i a co m n o p q =
      rw
        (
          gate-and c matches m,
          gate-and ci matches n,
          gate-and i matches o,
          gate-and a matches p,
          gate-and co matches q,
        )
        (go (gate c m) (gate ci n) (gate i o) (gate a p) (gate co q) matches)
    where
      go :
          (x y z v w : ℕ) (b : Bool)
          → gate b x + gate b y + gate b z + (gate b v + gate b w) ≡ gate b (x + y + z + v + w)
      go x y z v w true = omega arith
      go x y z v w false = omega arith

  pub board_hits-eq :
      (player : PlayerResult) → board_hits segment k player ≡ gate matches (occurrences k player)
  unfolding board_hits member
  board_hits-eq player =
      rw
        (
          units_hits-eq player.units [],
          augments_hits-eq player.augments,
          hit-eq "composition" (composition_label player.units),
        )
        (gate_sum (str_eq "champion" k.entity_type) (str_eq "champion_item" k.entity_type)
          (str_eq "item" k.entity_type) (str_eq "augment" k.entity_type)
          (str_eq "composition" k.entity_type) _ _ _ _ _)

-- The samples that a list of boards of one segment adds to a key.
abbrev pub recorded : Segment → EntityKey → List PlayerResult → List ℕ
recorded segment k [] = []
recorded segment k (player ∷ players) =
    replicate (gate (segment_beq segment k.segment) (occurrences k player)) player.placement
    ++ recorded segment k players

samples-add_players :
    (segment : Segment) (k : EntityKey) (players : List PlayerResult) (agg : StatAggregator)
    → samples k (add_players segment players agg).buffers
      ≡ samples k agg.buffers ++ recorded segment k players
unfolding add_players
samples-add_players segment k [] agg = rw append-nil
samples-add_players segment k (player ∷ players) agg =
    samples-add_players segment k players _
    ∙ rw (samples-add_player segment k player agg.buffers, board_hits-eq segment k player)
        (append_assoc (samples k agg.buffers) _ (recorded segment k players))

-- For every entity key, a match appends to the key's samples, for each of its boards in order, the
-- board's placement as often as the board counts for the key, if the match is of the key's
-- segment, and nothing otherwise; what was recorded before stays in front.
pub samples-process_match :
    (event : MatchEvent) (k : EntityKey) (agg : StatAggregator)
    → samples k (process_match event agg).buffers
      ≡ samples k agg.buffers ++ recorded (segment_of event) k event.players
unfolding process_match
samples-process_match event k agg = samples-add_players (segment_of event) k event.players agg
