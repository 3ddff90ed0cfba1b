-- ===== src/Api/Security/Window/Allow.antt =====
-- What `_SlidingWindow.allow` of api/security.py decides, and what it keeps.
use tft_stats_analytics.Base.{
  ℕ, ◌≤◌, ◌<◌, String, ◌≡◌, refl, ap, subst, ◌∙◌, Bool, true, false, Option, none, some, List, [],
  ◌∷◌, ◌++◌, arith, ltb, leb, if◌then◌else◌, length, keep_if, All, Bool-cases, inl, inr, str_eq,
}
use tft_stats_analytics.Base.Dict.{
  get_or, get_or-insert, insert, lookup, lookup-insert, string_eq, beq_refl,
}
use tft_stats_analytics.Api.Security.Window.{
  Hits, pop_expired, not_empty, prune, refuse, accept, allow, retry_after,
}
use tft_stats_analytics.Api.Security.Window.Tracks.{
  recent, Tracks, popped_eq, popped-Tracks, appended-Tracks,
}

-- No key of the table has an empty deque.
abbrev pub NoneEmpty : Hits → Type 0
NoneEmpty = All (λ h. not_empty h ≡ true)

keep_if-NoneEmpty : (hits : Hits) → NoneEmpty hits → keep_if not_empty hits ≡ hits
keep_if-NoneEmpty [] h = refl
keep_if-NoneEmpty (x ∷ hits) h = rw h.0 (ap (◌∷◌ x) (keep_if-NoneEmpty hits h.1))

prune-NoneEmpty : (hits : Hits) → NoneEmpty hits → prune hits ≡ hits
unfolding prune
prune-NoneEmpty hits h = ground (arith, keep_if-NoneEmpty hits h)

not_empty_key : (j k : String) (dq : List ℕ) → not_empty (k, dq) ≡ true → not_empty (j, dq) ≡ true
not_empty_key j k [] e = cc
not_empty_key j k (x ∷ dq) e = refl

insert-NoneEmpty :
    (key : String) (dq : List ℕ) (hits : Hits)
    → not_empty (key, dq) ≡ true
    → NoneEmpty hits
    → NoneEmpty (insert key dq hits)
unfolding insert
insert-NoneEmpty key dq [] e h = (e, tt)
insert-NoneEmpty key dq ((j, w) ∷ hits) e h = elim (Bool-cases (str_eq j key)) [
  | inl q ↦ rw q (not_empty_key j key dq e, h.1)
  | inr q ↦ rw q (h.0, insert-NoneEmpty key dq hits e h.1)
]

-- The deque of a key.
abbrev pub deque : String → Hits → List ℕ
deque key hits = get_or [] key hits

-- The outcome of a call at time `t` for a key whose accepted requests are `log`: it succeeds
-- exactly if fewer than `limit` of them are recent, the deque keeps answering for the log with the
-- request added if it was accepted, and no other key's deque changes.
pub record IsDecided (window limit t : ℕ) (key : String) (hits : Hits) (log : List ℕ)
    (result : Option (Hits × (Bool × ℕ))) : Type 0 where
  pub table : Hits
  pub retry : ℕ
  pub returned : result ≡ some (table, (ltb (length (keep_if (recent window t) log)) limit, retry))
  pub tracks :
      Tracks window t
        (deque key table)
        (if ltb (length (keep_if (recent window t) log)) limit then log ++ (t ∷ []) else log)
  pub others : (other : String) → str_eq key other ≡ false → deque other table ≡ deque other hits
  pub none_empty : NoneEmpty table

not_empty-append : (key : String) (t : ℕ) (xs : List ℕ) → not_empty (key, xs ++ (t ∷ [])) ≡ true
not_empty-append key t [] = refl
not_empty-append key t (x ∷ xs) = refl

accept-IsDecided :
    (window limit t : ℕ) (key : String) (dq : List ℕ) (hits : Hits) (log : List ℕ)
    → NoneEmpty hits
    → ltb (length (keep_if (recent window t) log)) limit ≡ true
    → Tracks window t (dq ++ (t ∷ [])) (log ++ (t ∷ []))
    → IsDecided window limit t key hits log (accept t key dq hits)
unfolding accept
accept-IsDecided window limit t key dq hits log clean open_ k =
    let dq' = dq ++ (t ∷ []) in
    let clean' = insert-NoneEmpty key dq' hits (not_empty-append key t dq) clean in
    record {
      table = insert key dq' hits;
      retry = 0;
      returned = rw (open_, prune-NoneEmpty (insert key dq' hits) clean');
      tracks = rw (open_, get_or-insert [] key key dq' hits, beq_refl key) k;
      others = λ other e. get_or-insert [] key other dq' hits ∙ rw e;
      none_empty = clean';
    }

refuse-IsDecided :
    (second window limit t : ℕ) (key : String) (dq : List ℕ) (hits : Hits) (log : List ℕ)
    → NoneEmpty hits
    → 0 < length dq
    → ltb (length (keep_if (recent window t) log)) limit ≡ false
    → Tracks window t dq log
    → IsDecided window limit t key hits log (refuse second window t key dq hits)
unfolding refuse
refuse-IsDecided second window limit t key [] hits log clean full closed k = absurd (omega arith)
refuse-IsDecided second window limit t key (x ∷ dq) hits log clean full closed k = record {
  table = insert key (x ∷ dq) hits;
  retry = retry_after second window t x;
  returned = rw closed;
  tracks = rw (closed, get_or-insert [] key key (x ∷ dq) hits, beq_refl key) k;
  others = λ other e. get_or-insert [] key other (x ∷ dq) hits ∙ rw e;
  none_empty = insert-NoneEmpty key (x ∷ dq) hits refl clean;
}

-- With a positive limit, times that do not go back, and a table without empty deques, `allow`
-- never raises. It accepts exactly if fewer than `limit` requests of the key's whole log of
-- accepted requests lie within the window; the table answers for the log with the request added;
-- other keys' deques are unchanged; and no deque is empty afterwards.
pub allow-IsDecided :
    (second window limit now t : ℕ) (key : String) (hits : Hits) (log : List ℕ)
    → 0 < limit
    → now ≤ t
    → NoneEmpty hits
    → Tracks window now (deque key hits) log
    → IsDecided window limit t key hits log (allow second window key limit t hits)
unfolding allow
allow-IsDecided second window limit now t key hits log pos later clean k =
    let dq = pop_expired window t (deque key hits) in
    let same = ap length (popped_eq window now t later (deque key hits) log k) in
    elim (Bool-cases (leb limit (length dq))) [
      | inl e ↦ rw e (
          refuse-IsDecided second window limit t key dq hits log clean (ground arith) (ground arith)
            (popped-Tracks window now t later (deque key hits) log k))
      | inr e ↦ rw e (
          accept-IsDecided window limit t key dq hits log clean (ground arith)
            (appended-Tracks window now t later (deque key hits) log k))
    ]

-- The table has the key of the call and every key it had, other keys' deques are as before, and no
-- deque is empty.
abbrev pub IsUnpruned : String → Hits → Hits → Type 0
IsUnpruned key hits table =
    ((other : String) → str_eq key other ≡ false → lookup other table ≡ lookup other hits)
    × ((¬ (lookup key table ≡ none)) × NoneEmpty table)

insert-IsUnpruned :
    (key : String) (dq : List ℕ) (hits : Hits)
    → not_empty (key, dq) ≡ true
    → NoneEmpty hits
    → IsUnpruned key hits (insert key dq hits)
insert-IsUnpruned key dq hits e clean = (
  (λ other apart. lookup-insert key other dq hits ∙ rw apart refl),
  (
    (λ gone. cc (lookup-insert key key dq hits, beq_refl key)),
    insert-NoneEmpty key dq hits e clean,
  ),
)

IsUnpruned-insert :
    (key : String) (dq : List ℕ) (hits table : Hits)
    → not_empty (key, dq) ≡ true
    → NoneEmpty hits
    → insert key dq hits ≡ table
    → IsUnpruned key hits table
IsUnpruned-insert key dq hits table e clean p =
    subst (IsUnpruned key hits) p (insert-IsUnpruned key dq hits e clean)

IsUnpruned-refuse :
    (second window t : ℕ) (key : String) (dq : List ℕ) (hits table : Hits) (r : Bool × ℕ)
    → NoneEmpty hits
    → refuse second window t key dq hits ≡ some (table, r)
    → IsUnpruned key hits table
unfolding refuse
IsUnpruned-refuse second window t key [] hits table r clean e = cc
IsUnpruned-refuse second window t key (x ∷ dq) hits table r clean e =
    IsUnpruned-insert key (x ∷ dq) hits table refl clean (cc)

IsUnpruned-accept :
    (t : ℕ) (key : String) (dq : List ℕ) (hits table : Hits) (r : Bool × ℕ)
    → NoneEmpty hits
    → accept t key dq hits ≡ some (table, r)
    → IsUnpruned key hits table
unfolding accept
IsUnpruned-accept t key dq hits table r clean e =
    let full = not_empty-append key t dq in
    let stays =
      prune-NoneEmpty (insert key (dq ++ (t ∷ [])) hits)
        (insert-NoneEmpty key (dq ++ (t ∷ [])) hits full clean) in
    IsUnpruned-insert key (dq ++ (t ∷ [])) hits table full clean (cc stays)

-- A call on a table without empty deques deletes no key: other keys have the deques they had, or none
-- if they had none, the key of the call is in the table, and no deque is empty. So the pruning in
-- `allow` finds nothing to delete, however long a key has been idle.
pub allow_keeps_keys :
    (second window limit t : ℕ) (key : String) (hits table : Hits) (r : Bool × ℕ)
    → NoneEmpty hits
    → allow second window key limit t hits ≡ some (table, r)
    → IsUnpruned key hits table
unfolding allow
allow_keeps_keys second window limit t key hits table r clean e =
    let dq = pop_expired window t (deque key hits) in
    elim (Bool-cases (leb limit (length dq))) [
      | inl h ↦ IsUnpruned-refuse second window t key dq hits table r clean (rw h at e)
      | inr h ↦ IsUnpruned-accept t key dq hits table r clean (rw h at e)
    ]
