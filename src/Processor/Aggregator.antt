-- ===== src/Processor/Aggregator.antt =====
-- processor/aggregator.py: per-entity placement samples and the statistics of a flush. The samples
-- are whole numbers below 2^53, on which NumPy's float64 sums are exact.
pub mod Label
pub mod Flush
pub mod Occurs
pub mod Samples
pub mod Bounds
use tft_stats_analytics.Base.{
  ℕ, ◌+◌, String, ◌<>◌, ◌≡◌, ◌↔◌, Bool, true, ◌&&◌, Option, none, some, List, [], ◌∷◌, ◌++◌, map,
  arith, ltb, leb, ◌==◌, str_eq, eq_iff, if◌then◌else◌, length, sum_of, keep_if,
}
use tft_stats_analytics.Base.Dict.{Eq, string_eq, get_or, insert, member, add_key}
use tft_stats_analytics.Base.Float.{Float}
use tft_stats_analytics.Proto.{BoardUnit, PlayerResult, MatchEvent, StatEntry, VectorClock}
use tft_stats_analytics.Processor.Aggregator.Label.{composition_label}

-- `(patch, tier, region)`
pub record Segment : Type 0 where
  pub patch : String
  pub tier : String
  pub region : String

-- `(entity_id, entity_type, patch, tier, region)`
pub record EntityKey : Type 0 where
  pub entity_id : String
  pub entity_type : String
  pub segment : Segment

abbrev pub segment_beq : Segment → Segment → Bool
segment_beq a b = str_eq a.patch b.patch && str_eq a.tier b.tier && str_eq a.region b.region

abbrev pub key_beq : EntityKey → EntityKey → Bool
key_beq a b =
    str_eq a.entity_id b.entity_id
    && str_eq a.entity_type b.entity_type
    && segment_beq a.segment b.segment

pub segment_beq_iff : (a b : Segment) → (segment_beq a b ≡ true) ↔ (a ≡ b)
segment_beq_iff a b = (
  (λ h. ground (arith, eq_iff a.patch b.patch, eq_iff a.tier b.tier, eq_iff a.region b.region)),
  (λ h. ground (arith, eq_iff a.patch b.patch, eq_iff a.tier b.tier, eq_iff a.region b.region)),
)

pub key_beq_iff : (a b : EntityKey) → (key_beq a b ≡ true) ↔ (a ≡ b)
key_beq_iff a b = (
  (λ h. ground (
    arith,
    eq_iff a.entity_id b.entity_id,
    eq_iff a.entity_type b.entity_type,
    segment_beq_iff a.segment b.segment,
  )),
  (λ h. ground (
    arith,
    eq_iff a.entity_id b.entity_id,
    eq_iff a.entity_type b.entity_type,
    segment_beq_iff a.segment b.segment,
  )),
)

instance abbrev pub segment_eq : Eq Segment
segment_eq = record { beq = segment_beq; beq_iff = segment_beq_iff }

instance abbrev pub key_eq : Eq EntityKey
key_eq = record { beq = key_beq; beq_iff = key_beq_iff }

abbrev pub Buffers : Type 0
Buffers = List (EntityKey × List ℕ)

pub record StatAggregator : Type 0 where
  pub buffers : Buffers
  pub totals : List (Segment × ℕ)
  pub matches_seen : ℕ

unfoldable pub new_aggregator : StatAggregator
new_aggregator = record { buffers = []; totals = []; matches_seen = 0 }

-- The placements recorded for a key.
abbrev pub samples : EntityKey → Buffers → List ℕ
samples key buffers = get_or [] key buffers

abbrev pub key_of : Segment → String → String → EntityKey
key_of segment entity_type entity_id = record {
  entity_id = entity_id;
  entity_type = entity_type;
  segment = segment;
}

-- `_add`
unfoldable pub add : EntityKey → ℕ → Buffers → Buffers
unfolding insert get_or
add key placement buffers = insert key (samples key buffers ++ (placement ∷ [])) buffers

-- `f"{unit.character_id}|{item}"`
unfoldable pub pair_id : String → String → String
pair_id champion item = champion <> ("|" <> item)

module _ (segment : Segment) (placement : ℕ) where
  -- One item of a unit: the pair always counts, the item only if the board has not shown it.
  unfoldable pub add_item : String → String → List String → Buffers → Buffers
  unfolding add pair_id member
  add_item champion item seen buffers =
      let paired = add (key_of segment "champion_item" (pair_id champion item)) placement buffers in
      if member item seen then paired else add (key_of segment "item" item) placement paired

  -- The loop over the items of a unit, with the set `seen_items`.
  unfoldable pub add_items : String → List String → List String × Buffers → List String × Buffers
  unfolding add_item add_key
  add_items champion [] (seen, buffers) = (seen, buffers)
  add_items champion (item ∷ items) (seen, buffers) =
      add_items champion items (add_key item seen, add_item champion item seen buffers)

  -- The loop over the units of a board.
  unfoldable pub add_units : List BoardUnit → List String × Buffers → List String × Buffers
  unfolding add_items
  add_units [] st = st
  add_units (u ∷ us) (seen, buffers) = add_units us (
      add_items u.character_id u.items
        (seen, add (key_of segment "champion" u.character_id) placement buffers))

  unfoldable pub add_augments : List String → Buffers → Buffers
  unfolding add
  add_augments [] buffers = buffers
  add_augments (aug ∷ augs) buffers =
      add_augments augs (add (key_of segment "augment" aug) placement buffers)

-- The body of the loop over the players.
unfoldable pub add_player : Segment → PlayerResult → Buffers → Buffers
unfolding add_units add_augments composition_label
add_player segment player buffers =
    let boards = (add_units segment player.placement player.units ([], buffers)).1 in
    add (key_of segment "composition" (composition_label player.units)) player.placement
      (add_augments segment player.placement player.augments boards)

unfoldable pub add_players : Segment → List PlayerResult → StatAggregator → StatAggregator
unfolding add_player
add_players segment [] agg = agg
add_players segment (player ∷ players) agg = add_players segment players (record agg {
  buffers = add_player segment player agg.buffers;
  totals = insert segment (get_or 0 segment agg.totals + 1) agg.totals;
})

abbrev pub segment_of : MatchEvent → Segment
segment_of event = record { patch = event.patch; tier = event.tier; region = event.region }

unfoldable pub process_match : MatchEvent → StatAggregator → StatAggregator
unfolding add_players
process_match event agg =
    let counted = add_players (segment_of event) event.players agg in
    record counted { matches_seen = counted.matches_seen + 1 }

unfoldable pub process_batch : List MatchEvent → StatAggregator → StatAggregator
unfolding process_match
process_batch [] agg = agg
process_batch (m ∷ ms) agg = process_batch ms (process_match m agg)
