-- ===== src/Api/Security/Middleware/Spending.antt =====
-- What a request that `rate_limit_middleware` of api/security.py answers has spent.
use tft_stats_analytics.Base.{
  ℕ, ◌*◌, ◌<◌, String, ◌<>◌, ◌≡◌, refl, ◌∙◌, Bool, true, false, ◌&&◌, some, List, [], ◌∷◌, arith,
  ltb, leb, length, Bool-cases, inl, inr, if◌then◌else◌,
}
use tft_stats_analytics.Base.Dict.{get_or, string_eq}
use tft_stats_analytics.Api.Security.Params.{Text, codes, is_prefix}
use tft_stats_analytics.Api.Security.Window as Window
use tft_stats_analytics.Api.Security.Window.{Hits, pop_expired}
use tft_stats_analytics.Api.Security.Middleware.{
  Settings, Guards, Verdict, rate_limited, is_riot_path, limited, spend, finish, guard,
}

refuse_total :
    (second window now : ℕ) (key : String) (dq : List ℕ) (hits : Hits)
    → 0 < length dq
    → (r : Hits × (Bool × ℕ)) × (Window.refuse second window now key dq hits ≡ some r)
unfolding Window.refuse
refuse_total second window now key [] hits h = absurd (omega arith)
refuse_total second window now key (t ∷ dq) hits h = (_, refl)

accept_total :
    (now : ℕ) (key : String) (dq : List ℕ) (hits : Hits)
    → (r : Hits × (Bool × ℕ)) × (Window.accept now key dq hits ≡ some r)
unfolding Window.accept
accept_total now key dq hits = (_, refl)

allow_total :
    (second window limit now : ℕ) (key : String) (hits : Hits)
    → 0 < limit
    → (r : Hits × (Bool × ℕ)) × (Window.allow second window key limit now hits ≡ some r)
unfolding Window.allow
allow_total second window limit now key hits h =
    let dq : List ℕ = pop_expired window now (get_or [] key hits) in
    elim (Bool-cases (leb limit (length dq))) [
      | inl e ↦ rw e (refuse_total second window now key dq hits (ground arith))
      | inr e ↦ rw e (accept_total now key dq hits)
    ]

limited_total :
    (second : ℕ) (on : Bool) (key : String) (limit now : ℕ) (hits : Hits)
    → (r : Hits × (Bool × ℕ)) × (limited second on key limit now hits ≡ some r)
unfolding limited
limited_total second on key limit now hits = elim (Bool-cases (on && ltb 0 limit)) [
  | inl e ↦ rw e (allow_total second (60 * second) limit now key hits (ground arith))
  | inr e ↦ rw e ((hits, (true, 0)), refl)
]

limited_off :
    (second : ℕ) (on : Bool) (key : String) (limit now : ℕ) (hits : Hits) (r : Hits × (Bool × ℕ))
    → on ≡ false
    → limited second on key limit now hits ≡ some r
    → r.0 ≡ hits
unfolding limited
limited_off second on key limit now hits r off e = ground arith

-- What an answer leaves alone: the player window unless the path is one of Riot's, and the daily
-- count unless the path is a lookup, and in any case if the request is rate limited.
abbrev pub IsFrugal : Text → Guards → Guards × Verdict → Type 0
IsFrugal path g (g', v) =
    (is_riot_path path ≡ false → g'.player_hits ≡ g.player_hits)
    × (is_prefix (codes "/player/") path ≡ false → g'.daily ≡ g.daily)
    × ((retry : ℕ) → v ≡ rate_limited retry → g'.daily ≡ g.daily)

finish-player_hits :
    (second today : ℕ) (is_lookup : Bool) (l : Settings) (g : Guards) (r : Bool × ℕ)
    → (finish second today is_lookup l g r).0.player_hits ≡ g.player_hits
unfolding spend
finish-player_hits second today is_lookup l g (false, retry) = refl
finish-player_hits second today is_lookup l g (true, retry) = ground arith

finish-daily :
    (second today : ℕ) (is_lookup : Bool) (l : Settings) (g : Guards) (r : Bool × ℕ)
    → is_lookup ≡ false
    → (finish second today is_lookup l g r).0.daily ≡ g.daily
unfolding spend
finish-daily second today is_lookup l g (false, retry) h = refl
finish-daily second today is_lookup l g (true, retry) h = ground arith

finish-rate_limited :
    (second today : ℕ) (is_lookup : Bool) (l : Settings) (g : Guards) (r : Bool × ℕ) (n : ℕ)
    → (finish second today is_lookup l g r).1 ≡ rate_limited n
    → (finish second today is_lookup l g r).0.daily ≡ g.daily
unfolding spend
finish-rate_limited second today is_lookup l g (false, retry) n h = refl
finish-rate_limited second today is_lookup l g (true, retry) n h = ground arith

-- The tests in the order of the code, from what the two windows answered.
guard-eq :
    (second : ℕ) (l : Settings) (now today : ℕ) (path : Text) (ip : String) (g : Guards)
    (first then_ : Hits × (Bool × ℕ))
    → limited second true ("g:" <> ip) l.rate_per_min now g.global_hits ≡ some first
    → limited second
        (first.1.0 && is_riot_path path)
        ("p:" <> ip)
        l.player_rate_per_min
        now
        g.player_hits
      ≡ some then_
    → guard second l now today path ip g
      ≡ some (
          finish second today
            (is_prefix (codes "/player/") path)
            l
            (record g { global_hits = first.0; player_hits = then_.0 })
            (first.1.0 && then_.1.0, if first.1.0 then then_.1.1 else first.1.1))
unfolding guard
guard-eq second l now today path ip g first then_ e e' = rw (guard, e, e') refl

-- Whatever the settings and the tables, the middleware answers every request without an exception;
-- the answer leaves the player window as it was unless the path is one of Riot's, and the daily count
-- unless the path is a player lookup; and a request that is rate limited spends nothing of the day.
pub guard-IsFrugal :
    (second : ℕ) (l : Settings) (now today : ℕ) (path : Text) (ip : String) (g : Guards)
    → (answer : Guards × Verdict) × (guard second l now today path ip g ≡ some answer)
      × IsFrugal path g answer
guard-IsFrugal second l now today path ip g =
    let (first, e) = limited_total second true ("g:" <> ip) l.rate_per_min now g.global_hits in
    let on : Bool = first.1.0 && is_riot_path path in
    let (then_, e') =
      limited_total second on ("p:" <> ip) l.player_rate_per_min now g.player_hits in
    let mid : Guards = record g { global_hits = first.0; player_hits = then_.0 } in
    let is_lookup : Bool = is_prefix (codes "/player/") path in
    let r : Bool × ℕ = (first.1.0 && then_.1.0, if first.1.0 then then_.1.1 else first.1.1) in
    (
      finish second today is_lookup l mid r,
      guard-eq second l now today path ip g first then_ e e',
      (
        (λ other.
            finish-player_hits second today is_lookup l mid r
            ∙ limited_off second on ("p:" <> ip) l.player_rate_per_min now g.player_hits then_
                (ground arith) e'),
        finish-daily second today is_lookup l mid r,
        finish-rate_limited second today is_lookup l mid r,
      ),
    )
