-- ===== src/Processor/Aggregator/Occurs.antt =====
-- What `process_match` of processor/aggregator.py records: for each kind of entity, how often a
-- board counts for it.
use tft_stats_analytics.Base.{
  ℕ, ◌+◌, String, ◌≡◌, refl, ◌∙◌, ap, Bool, List, [], ◌∷◌, ◌++◌, append-nil, arith, Bool-cases, inl,
  inr, str_eq, if◌then◌else◌, sum_of, any_of, replicate, append-replicate,
}
use tft_stats_analytics.Base.Count.{bit, count}
use tft_stats_analytics.Base.Dict.{get_or-insert, member, add_key, string_eq}
use tft_stats_analytics.Proto.{BoardUnit, PlayerResult}
use tft_stats_analytics.Processor.Aggregator.{
  Segment, EntityKey, Buffers, segment_eq, key_eq, key_beq, key_beq_iff, samples, key_of, add,
  pair_id, add_item, add_items, add_units, add_augments, add_player,
}
use tft_stats_analytics.Processor.Aggregator.Label.{composition_label}

abbrev pub gate : Bool → ℕ → ℕ
gate b n = if b then n else 0

-- How often a board counts for an entity: a champion once for each of its units, a pair once for
-- each time that the champion holds the item, an item once if any unit holds it, an augment each
-- time that it is listed, and a composition if it is the board's label.
abbrev pub occurrences : EntityKey → PlayerResult → ℕ
occurrences k player =
    gate (str_eq "champion" k.entity_type)
      (count (λ u. str_eq u.character_id k.entity_id) player.units)
    + gate (str_eq "champion_item" k.entity_type) (
        sum_of (λ u. count (λ item. str_eq (pair_id u.character_id item) k.entity_id) u.items)
          player.units)
    + gate (str_eq "item" k.entity_type)
        (bit (any_of (λ u. member k.entity_id u.items) player.units))
    + gate (str_eq "augment" k.entity_type) (count (λ aug. str_eq aug k.entity_id) player.augments)
    + gate (str_eq "composition" k.entity_type)
        (bit (str_eq (composition_label player.units) k.entity_id))

samples-add :
    (k j : EntityKey) (placement : ℕ) (b : Buffers)
    → samples j (add k placement b) ≡ samples j b ++ replicate (bit (key_beq k j)) placement
unfolding add
samples-add k j placement b = ground (
  arith,
  get_or-insert [] k j (samples k b ++ (placement ∷ [])) b,
  key_beq_iff k j,
  append-nil (samples j b),
)

-- Another hit for a key appends one more copy.
samples-add_more :
    (k j : EntityKey) (placement n : ℕ) (b : Buffers)
    → samples j (add k placement b) ++ replicate n placement
      ≡ samples j b ++ replicate (bit (key_beq k j) + n) placement
samples-add_more k j placement n b =
    rw (samples-add k j placement b)
      (append-replicate (samples j b) (bit (key_beq k j)) n placement)

-- `seen_items` after the items of a unit.
unfoldable pub items_seen : List String → List String → List String
items_seen [] seen = seen
items_seen (item ∷ items) seen = items_seen items (add_key item seen)

module _ (segment : Segment) (k : EntityKey) where
  abbrev pub hit : String → String → Bool
  hit entity_type entity_id = key_beq (key_of segment entity_type entity_id) k

  unfoldable pub item_hits : String → String → List String → ℕ
  item_hits champion item seen =
      bit (hit "champion_item" (pair_id champion item))
      + (if member item seen then 0 else bit (hit "item" item))

  samples-add_item :
      (placement : ℕ) (champion item : String) (seen : List String) (b : Buffers)
      → samples k (add_item segment placement champion item seen b)
        ≡ samples k b ++ replicate (item_hits champion item seen) placement
  unfolding add_item item_hits
  samples-add_item placement champion item seen b =
      let paired_key = key_of segment "champion_item" (pair_id champion item) in
      let item_key = key_of segment "item" item in
      elim (Bool-cases (member item seen)) [
        | inl e ↦ rw e (
            samples-add paired_key k placement b
            ∙ ap (λ n. samples k b ++ replicate n placement) (omega arith))
        | inr e ↦ rw e (
            samples-add item_key k placement (add paired_key placement b)
            ∙ samples-add_more paired_key k placement (bit (key_beq item_key k)) b)
      ]

  -- The hits of the loop over the items of a unit.
  unfoldable pub items_hits : String → List String → List String → ℕ
  items_hits champion [] seen = 0
  items_hits champion (item ∷ items) seen =
      item_hits champion item seen + items_hits champion items (add_key item seen)

  add_items-seen :
      (placement : ℕ) (champion : String) (items seen : List String) (b : Buffers)
      → (add_items segment placement champion items (seen, b)).0 ≡ items_seen items seen
  unfolding add_items items_seen
  add_items-seen placement champion [] seen b = refl
  add_items-seen placement champion (item ∷ items) seen b =
      add_items-seen placement champion items (add_key item seen) _

  samples-add_items :
      (placement : ℕ) (champion : String) (items seen : List String) (b : Buffers)
      → samples k (add_items segment placement champion items (seen, b)).1
        ≡ samples k b ++ replicate (items_hits champion items seen) placement
  unfolding add_items items_hits
  samples-add_items placement champion [] seen b = rw append-nil
  samples-add_items placement champion (item ∷ items) seen b =
      samples-add_items placement champion items (add_key item seen)
        (add_item segment placement champion item seen b)
      ∙ rw (samples-add_item placement champion item seen b) (
          append-replicate (samples k b) (item_hits champion item seen)
            (items_hits champion items (add_key item seen)) placement)

  unfoldable pub units_hits : List BoardUnit → List String → ℕ
  units_hits [] seen = 0
  units_hits (u ∷ us) seen =
      bit (hit "champion" u.character_id)
      + (items_hits u.character_id u.items seen + units_hits us (items_seen u.items seen))

  samples-add_units :
      (placement : ℕ) (units : List BoardUnit) (seen : List String) (b : Buffers)
      → samples k (add_units segment placement units (seen, b)).1
        ≡ samples k b ++ replicate (units_hits units seen) placement
  unfolding add_units units_hits
  samples-add_units placement [] seen b = rw append-nil
  samples-add_units placement (u ∷ us) seen b =
      let champion_key = key_of segment "champion" u.character_id in
      let st =
        add_items segment placement u.character_id u.items (seen, add champion_key placement b) in
      let rest = units_hits us (items_seen u.items seen) in
      samples-add_units placement us st.0 st.1
      ∙ rw
          (
            add_items-seen placement u.character_id u.items seen (add champion_key placement b),
            samples-add_items placement u.character_id u.items seen (add champion_key placement b),
            append-replicate (samples k (add champion_key placement b))
                (items_hits u.character_id u.items seen) rest placement,
          )
          (samples-add_more champion_key k placement (items_hits u.character_id u.items seen + rest)
            b)

  unfoldable pub augments_hits : List String → ℕ
  augments_hits [] = 0
  augments_hits (aug ∷ augs) = bit (hit "augment" aug) + augments_hits augs

  samples-add_augments :
      (placement : ℕ) (augments : List String) (b : Buffers)
      → samples k (add_augments segment placement augments b)
        ≡ samples k b ++ replicate (augments_hits augments) placement
  unfolding add_augments augments_hits
  samples-add_augments placement [] b = rw append-nil
  samples-add_augments placement (aug ∷ augs) b =
      samples-add_augments placement augs (add (key_of segment "augment" aug) placement b)
      ∙ samples-add_more (key_of segment "augment" aug) k placement (augments_hits augs) b

  unfoldable pub board_hits : PlayerResult → ℕ
  board_hits player =
      units_hits player.units []
      + (augments_hits player.augments + bit (hit "composition" (composition_label player.units)))

  pub samples-add_player :
      (player : PlayerResult) (b : Buffers)
      → samples k (add_player segment player b)
        ≡ samples k b ++ replicate (board_hits player) player.placement
  unfolding add_player board_hits
  samples-add_player player b =
      let boards = (add_units segment player.placement player.units ([], b)).1 in
      rw
        (
          samples-add (key_of segment "composition" (composition_label player.units)) k
              player.placement (add_augments segment player.placement player.augments boards),
          samples-add_augments player.placement player.augments boards,
          samples-add_units player.placement player.units [] b,
          append-replicate,
          append-replicate,
        )
        (ap (λ n. samples k b ++ replicate n player.placement) (omega arith))
