-- ===== src/Api/Security/Window.antt =====
-- `_SlidingWindow` of api/security.py. Times are ticks of the monotonic clock, `second` of them to
-- a second; `dq[0] < now - window` is written without a subtraction.
pub mod Tracks
pub mod Allow
use tft_stats_analytics.Base.{
  ℕ, ◌+◌, ◌-◌, ◌/◌, max, String, Bool, true, false, not, Option, none, some, List, [], ◌∷◌, ◌++◌,
  ltb, leb, if◌then◌else◌, length, keep_if,
}
use tft_stats_analytics.Base.Dict.{get_or, insert, string_eq}

abbrev pub Hits : Type 0
Hits = List (String × List ℕ)

-- The number of keys above which `allow` looks for empty deques.
abbrev pub prune_above : ℕ
prune_above = 4096

abbrev pub expired : ℕ → ℕ → ℕ → Bool
expired window now t = ltb (t + window) now

-- `while dq and dq[0] < cutoff: dq.popleft()`
unfoldable pub pop_expired : ℕ → ℕ → List ℕ → List ℕ
pop_expired window now [] = []
pop_expired window now (t ∷ dq) =
    let rest = pop_expired window now dq in if expired window now t then rest else t ∷ dq

abbrev pub not_empty : String × List ℕ → Bool
not_empty (key, []) = false
not_empty (key, t ∷ dq) = true

-- `{k: v for k, v in hits if v}`, which the loop of deletions leaves
unfoldable pub prune : Hits → Hits
prune hits = if ltb prune_above (length hits) then keep_if not_empty hits else hits

-- `max(1, int(window - (now - oldest)) + 1)`, in seconds
unfoldable pub retry_after : ℕ → ℕ → ℕ → ℕ → ℕ
retry_after second window now oldest = max 1 ((oldest + window - now) / second + 1)

-- The table after a refusal, with the seconds to wait. `none`: `dq[0]` of an empty deque raises.
unfoldable pub refuse : ℕ → ℕ → ℕ → String → List ℕ → Hits → Option (Hits × (Bool × ℕ))
unfolding retry_after insert
refuse second window now key [] hits = none
refuse second window now key (oldest ∷ dq) hits =
    some (insert key (oldest ∷ dq) hits, (false, retry_after second window now oldest))

unfoldable pub accept : ℕ → String → List ℕ → Hits → Option (Hits × (Bool × ℕ))
unfolding prune insert
accept now key dq hits = some (prune (insert key (dq ++ (now ∷ [])) hits), (true, 0))

-- `allow`
unfoldable pub allow : ℕ → ℕ → String → ℕ → ℕ → Hits → Option (Hits × (Bool × ℕ))
unfolding refuse accept pop_expired get_or
allow second window key limit now hits =
    let dq = pop_expired window now (get_or [] key hits) in
    if leb limit (length dq) then refuse second window now key dq hits else accept now key dq hits
