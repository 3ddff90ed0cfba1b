-- ===== src/Api/Security/Daily.antt =====
-- `_DailyCap` of api/security.py: the counter that resets when the day of the year changes.
use tft_stats_analytics.Base.{
  ℕ, zero, suc, ◌+◌, ◌-◌, ◌≤◌, min, ◌≡◌, Bool, true, false, Option, none, some, arith, leb, ◌==◌,
  if◌then◌else◌,
}
use tft_stats_analytics.Base.Count.{bit}

pub record DailyCap : Type 0 where
  pub cap : ℕ
  -- `_day`, which starts as no day at all
  pub day : Option ℕ
  pub count : ℕ

unfoldable pub new_cap : ℕ → DailyCap
new_cap cap = record { cap = cap; day = none; count = 0 }

abbrev pub is_day : Option ℕ → ℕ → Bool
is_day none today = false
is_day (some d) today = d == today

-- The reset at the start of `allow`.
unfoldable pub roll_over : ℕ → DailyCap → DailyCap
roll_over today c = if is_day c.day today then c else record c { day = some today; count = 0 }

unfoldable pub allow : ℕ → DailyCap → DailyCap × Bool
unfolding roll_over
allow today c =
    let c' = roll_over today c in
    if leb c'.cap c'.count then (c', false) else (record c' { count = c'.count + 1 }, true)

-- Calls one after the other on one day: the last state, and how many were allowed.
unfoldable pub allow_many : ℕ → ℕ → DailyCap → DailyCap × ℕ
unfolding allow
allow_many zero today c = (c, 0)
allow_many (suc n) today c =
    let first = allow today c in
    let rest = allow_many n today first.0 in (rest.0, bit first.1 + rest.1)

-- The calls that the counter has already allowed on the day.
abbrev pub spent : ℕ → DailyCap → ℕ
spent today c = if is_day c.day today then c.count else 0

-- Of `n` calls on one day as many are allowed as the cap leaves after those already allowed on that
-- day, and no more; a count from another day does not matter.
pub allow_many-eq :
    (n today : ℕ) (c : DailyCap)
    → spent today c ≤ c.cap
    → (allow_many n today c).1 ≡ min n (c.cap - spent today c)
unfolding allow_many
allow_many-eq zero today c h = omega arith
allow_many-eq (suc n) today c h = ground (arith, allow_many-eq n today (allow today c).0)
