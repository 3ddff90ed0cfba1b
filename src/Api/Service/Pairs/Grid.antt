-- ===== src/Api/Service/Pairs/Grid.antt =====
-- The grid that `champion_item_pairs` of api/service.py returns.
use tft_stats_analytics.Base.{
  ℕ, ◌*◌, ◌≤◌, String, ◌≡◌, map, true, Option, none, some, List, [], ◌∷◌, arith, leb, length,
  length-append, length-take, All, All-append, Bool-cases, inl, inr,
}
use tft_stats_analytics.Base.Dict.{lookup, member, members, string_eq, pair_eq}
use tft_stats_analytics.Base.Order.{Down, down_order, nat_order}
use tft_stats_analytics.Base.Sort.{sort_by}
use tft_stats_analytics.Base.Float.{Float}
use tft_stats_analytics.Proto.{StatEntry}
use tft_stats_analytics.Api.Service.{Row, aggregate_by_entity, min_sample_size}
use tft_stats_analytics.Api.Service.Pairs.{
  Cell, Pivot, Samples, no_pivot, pivot, top, cell_of, cells_of, matrix, of_tier,
  champion_item_pairs,
}

module _ {F : Type 0} where
  -- A cell of the grid.
  abbrev pub IsCell : List String → List String → Cell F → Type 0
  IsCell champions items c =
      (200 ≤ c.sample_size) × (member c.champion champions ≡ true) × (member c.item items ≡ true)

  cell_of-IsCell :
      (champ item : String) (o : Option (Row F)) (champions items : List String)
      → member champ champions ≡ true
      → member item items ≡ true
      → All (IsCell champions items) (cell_of champ item o) × (length (cell_of champ item o) ≤ 1)
  cell_of-IsCell champ item none champions items h k = (tt, omega arith)
  cell_of-IsCell champ item (some r) champions items h k =
      elim (Bool-cases (leb min_sample_size r.sample_size)) [
        | inl e ↦ rw e (((ground arith, h, k), tt), omega arith)
        | inr e ↦ rw e (tt, omega arith)
      ]

  cells_of-IsCell :
      (p : Pivot F) (champ : String) (items all champions : List String)
      → member champ champions ≡ true
      → All (λ i. member i all ≡ true) items
      → All (IsCell champions all) (cells_of p champ items)
        × (length (cells_of p champ items) ≤ length items)
  unfolding cells_of
  cells_of-IsCell p champ [] all champions h k = (tt, omega arith)
  cells_of-IsCell p champ (item ∷ items) all champions h k =
      let o : Option (Row F) = lookup ⦃e = pair_eq⦄ (champ, item) p.cell in
      let (one, single) = cell_of-IsCell champ item o champions all h k.0 in
      let (rest, few) = cells_of-IsCell p champ items all champions h k.1 in
      (
        All-append (IsCell champions all) (cell_of champ item o) (cells_of p champ items) one rest,
        omega (arith, single, few, length-append (cell_of champ item o) (cells_of p champ items)),
      )

  matrix-IsCell :
      (p : Pivot F) (champs champions items : List String)
      → All (λ c. member c champions ≡ true) champs
      → All (λ i. member i items ≡ true) items
      → All (IsCell champions items) (matrix p champs items)
        × (length (matrix p champs items) ≤ length champs * length items)
  unfolding matrix
  matrix-IsCell p [] champions items h k = (tt, omega arith)
  matrix-IsCell p (champ ∷ champs) champions items h k =
      let (one, few) = cells_of-IsCell p champ items items champions h.0 k in
      let (rest, product) = matrix-IsCell p champs champions items h.1 k in
      (
        All-append (IsCell champions items) (cells_of p champ items) (matrix p champs items) one
            rest,
        grind (arith, few, product, length-append (cells_of p champ items) (matrix p champs items)),
      )

length-top : (n : ℕ) (samples : Samples) → length (top n samples) ≤ n
unfolding top
length-top n samples = omega (
  arith,
  length-take n (map (λ kv. kv.0) (sort_by {K = Down ℕ} (λ kv. record { value = kv.1 }) samples)),
)

product_mono : (a b c d : ℕ) → a ≤ b → c ≤ d → a * c ≤ b * d
product_mono a b c d h k = grind arith

-- The grid has no more champions, items and cells than the two bounds allow, and every cell is of one
-- of its champions and one of its items and rests on at least 200 samples.
pub champion_item_pairs-IsGrid :
    (fl : Float) (tier : String) (n m : ℕ) (entries : List (StatEntry fl.F))
    → (length (champion_item_pairs fl tier n m entries).champions ≤ n)
      × (length (champion_item_pairs fl tier n m entries).items ≤ m)
      × (length (champion_item_pairs fl tier n m entries).cells ≤ n * m)
      × All
          (IsCell
            (champion_item_pairs fl tier n m entries).champions
            (champion_item_pairs fl tier n m entries).items)
          (champion_item_pairs fl tier n m entries).cells
unfolding champion_item_pairs
champion_item_pairs-IsGrid fl tier n m entries =
    let p : Pivot fl.F = pivot (aggregate_by_entity fl (of_tier fl tier entries)) no_pivot in
    let champions : List String = top n p.champ_samples in
    let items : List String = top m p.item_samples in
    let (cells, product) =
      matrix-IsCell p champions champions items (members champions) (members items) in
    (
      length-top n p.champ_samples,
      length-top m p.item_samples,
      omega (
        arith,
        product,
        product_mono (length champions) n (length items) m (length-top n p.champ_samples)
            (length-top m p.item_samples),
      ),
      cells,
    )
