-- ===== src/Api/Security/Window/Tracks.antt =====
-- `_SlidingWindow.allow` of api/security.py against a full log of the requests that it accepted.
use tft_stats_analytics.Base.{
  ℕ, ◌≤◌, ◌≡◌, refl, ap, sym, ◌∙◌, Bool, false, not, List, [], ◌∷◌, ◌++◌, arith, keep_if, All,
  All-append, Bool-cases, inl, inr,
}
use tft_stats_analytics.Base.Dict.{string_eq}
use tft_stats_analytics.Api.Security.Window.{expired, pop_expired}

abbrev pub recent : ℕ → ℕ → ℕ → Bool
recent window now t = not (expired window now t)

-- Ascending times, none after `now`.
abbrev pub IsAscending : ℕ → List ℕ → Type 0
IsAscending now [] = Unit
IsAscending now (t ∷ ts) = (t ≤ now) × All (λ u. t ≤ u) ts × IsAscending now ts

-- The deque answers for the log: at any later time they have the same recent requests.
pub record Tracks (window now : ℕ) (dq log : List ℕ) : Type 0 where
  pub ascending : IsAscending now dq
  pub same : (t : ℕ) → now ≤ t → keep_if (recent window t) dq ≡ keep_if (recent window t) log

keep_if-append :
    (p : ℕ → Bool) (xs ys : List ℕ) → keep_if p (xs ++ ys) ≡ keep_if p xs ++ keep_if p ys
keep_if-append p [] ys = refl
keep_if-append p (x ∷ xs) ys = ground (arith, keep_if-append p xs ys)

keep_if_all :
    (window t m : ℕ) (xs : List ℕ)
    → expired window t m ≡ false
    → All (λ u. m ≤ u) xs
    → keep_if (recent window t) xs ≡ xs
keep_if_all window t m [] h a = refl
keep_if_all window t m (x ∷ xs) h a = ground (arith, keep_if_all window t m xs h a.1)

-- On ascending times the loop at the front drops all that is expired.
pop_expired-eq :
    (window now t : ℕ) (dq : List ℕ)
    → IsAscending now dq
    → pop_expired window t dq ≡ keep_if (recent window t) dq
unfolding pop_expired
pop_expired-eq window now t [] a = refl
pop_expired-eq window now t (x ∷ dq) a = elim (Bool-cases (expired window t x)) [
  | inl e ↦ rw e (pop_expired-eq window now t dq a.2)
  | inr e ↦ rw e (ap (◌∷◌ x) (sym (keep_if_all window t x dq e a.1)))
]

keep_if-keep_if :
    (window now t : ℕ) (xs : List ℕ)
    → now ≤ t
    → keep_if (recent window t) (keep_if (recent window now) xs) ≡ keep_if (recent window t) xs
keep_if-keep_if window now t [] h = refl
keep_if-keep_if window now t (x ∷ xs) h = ground (arith, keep_if-keep_if window now t xs h)

All-keep_if : (P : ℕ → Type 0) (p : ℕ → Bool) (xs : List ℕ) → All P xs → All P (keep_if p xs)
All-keep_if P p [] h = tt
All-keep_if P p (x ∷ xs) h = elim (Bool-cases (p x)) [
  | inl e ↦ rw e (h.0, All-keep_if P p xs h.1)
  | inr e ↦ rw e (All-keep_if P p xs h.1)
]

keep_if-IsAscending :
    (p : ℕ → Bool) (now t : ℕ) (xs : List ℕ)
    → now ≤ t
    → IsAscending now xs
    → IsAscending t (keep_if p xs)
keep_if-IsAscending p now t [] h a = tt
keep_if-IsAscending p now t (x ∷ xs) h a = elim (Bool-cases (p x)) [
  | inl e ↦ rw e (omega arith, All-keep_if _ p xs a.1, keep_if-IsAscending p now t xs h a.2)
  | inr e ↦ rw e (keep_if-IsAscending p now t xs h a.2)
]

append-IsAscending : (t : ℕ) (xs : List ℕ) → IsAscending t xs → IsAscending t (xs ++ (t ∷ []))
append-IsAscending t [] a = (omega arith, tt, tt)
append-IsAscending t (x ∷ xs) a =
    (a.0, All-append _ xs (t ∷ []) a.1 (a.0, tt), append-IsAscending t xs a.2)

module _ (window now t : ℕ) (later : now ≤ t) (dq log : List ℕ) (k : Tracks window now dq log) where
  pub popped_eq : pop_expired window t dq ≡ keep_if (recent window t) log
  popped_eq = pop_expired-eq window now t dq k.ascending ∙ k.same t later

  pub popped-Tracks : Tracks window t (pop_expired window t dq) log
  popped-Tracks = record {
    ascending =
        rw (pop_expired-eq window now t dq k.ascending)
          (keep_if-IsAscending (recent window t) now t dq later k.ascending);
    same = λ u h. rw popped_eq (keep_if-keep_if window t u log h);
  }

  pub appended-Tracks : Tracks window t (pop_expired window t dq ++ (t ∷ [])) (log ++ (t ∷ []))
  appended-Tracks = record {
    ascending = append-IsAscending t (pop_expired window t dq) popped-Tracks.ascending;
    same = λ u h. rw (
      keep_if-append (recent window u) (pop_expired window t dq) (t ∷ []),
      keep_if-append (recent window u) log (t ∷ []),
      popped-Tracks.same u h,
    );
  }
