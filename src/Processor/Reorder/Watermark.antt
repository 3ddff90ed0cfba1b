-- ===== src/Processor/Reorder/Watermark.antt =====
-- What `_is_ready` and `_deliver` of processor/reorder.py mean for the watermarks.
use tft_stats_analytics.Base.{
  ℕ, ◌+◌, ◌≤◌, ◌<◌, max, String, ◌≡◌, refl, ◌⊎◌, inl, inr, Bool, true, ◌&&◌, [], ◌∷◌, arith, ◌==◌,
  str_eq, eq_iff, if◌then◌else◌, any_of,
}
use tft_stats_analytics.Base.Dict.{get_or-insert, string_eq}
use tft_stats_analytics.Proto.{VectorClock}
use tft_stats_analytics.Processor.Reorder.{watermark, is_ready, raise, deliver}

-- The clock has the entry `node: seq`.
abbrev pub has : String → ℕ → VectorClock → Bool
has node seq = any_of (λ entry. string_eq.beq entry.0 node && entry.1 == seq)

watermark-raise :
    (d : VectorClock) (n m : String) (s : ℕ)
    → watermark (raise n s d) m ≡ (if str_eq n m then max (watermark d m) s else watermark d m)
unfolding raise
watermark-raise d n m s = ground (arith, get_or-insert 0 n m s d, eq_iff n m)

-- Delivery never lowers a watermark.
pub deliver_mono :
    (d c : VectorClock) (node : String) → watermark d node ≤ watermark (deliver d c) node
unfolding deliver
deliver_mono d [] node = omega arith
deliver_mono d ((n, s) ∷ c) node =
    ground (arith, deliver_mono (raise n s d) c node, watermark-raise d n node s)

-- Delivery brings the watermark up to each entry of the clock.
pub deliver_covers :
    (d c : VectorClock) (node : String) (seq : ℕ)
    → has node seq c ≡ true
    → seq ≤ watermark (deliver d c) node
unfolding deliver
deliver_covers d [] node seq h = cc
deliver_covers d ((n, s) ∷ c) node seq h = ground (
  arith,
  deliver_covers (raise n s d) c node seq,
  deliver_mono (raise n s d) c node,
  watermark-raise d n node s,
  eq_iff n node,
)

-- A watermark that delivery changes is an entry of the clock.
pub deliver_from :
    (d c : VectorClock) (node : String)
    → (watermark (deliver d c) node ≡ watermark d node)
      ⊎ (has node (watermark (deliver d c) node) c ≡ true)
unfolding deliver
deliver_from d [] node = inl refl
deliver_from d ((n, s) ∷ c) node =
    ground (arith, deliver_from (raise n s d) c node, watermark-raise d n node s, eq_iff n node)

-- No entry of a ready clock is more than one above the watermark.
pub is_ready-le :
    (d c : VectorClock) (node : String) (seq : ℕ)
    → is_ready d c ≡ true
    → has node seq c ≡ true
    → seq ≤ watermark d node + 1
unfolding is_ready
is_ready-le d [] node seq h k = cc
is_ready-le d ((n, s) ∷ c) node seq h k = ground (arith, is_ready-le d c node seq, eq_iff n node)

-- Conversely, a clock with no such entry is ready.
pub is_ready_of-le :
    (d c : VectorClock)
    → ((node : String) (seq : ℕ) → has node seq c ≡ true → seq ≤ watermark d node + 1)
    → is_ready d c ≡ true
unfolding is_ready
is_ready_of-le d [] h = refl
is_ready_of-le d ((n, s) ∷ c) h =
    ground
      (arith, h n s, eq_iff n n, is_ready_of-le d c (λ node seq k. h node seq (ground (arith, k))))

-- A number between the old and the new watermark of a node, after the delivery of a ready clock,
-- is that clock's entry for the node.
pub deliver_no_gap :
    (d c : VectorClock) (node : String) (seq : ℕ)
    → is_ready d c ≡ true
    → watermark d node < seq
    → seq ≤ watermark (deliver d c) node
    → has node seq c ≡ true
deliver_no_gap d c node seq ready above below = elim (deliver_from d c node) [
  | inl e ↦ absurd (omega arith)
  | inr e ↦
      let bound = is_ready-le d c node (watermark (deliver d c) node) ready e in
      let same : watermark (deliver d c) node ≡ seq = omega arith in rw same at e
]
