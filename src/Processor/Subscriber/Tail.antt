-- ===== src/Processor/Subscriber/Tail.antt =====
-- What holds of the subscriber thread of processor/main.py after each kind of event.
use tft_stats_analytics.Base.{
  ℕ, ◌+◌, ◌*◌, max, ◌≤◌, ◌<◌, String, ◌≡◌, refl, ◌∙◌, Bool, ◌&&◌, ◌||◌, ltb, false, [], ◌∷◌, ◌++◌,
  arith, All, All-append, leb, ◌==◌, str_eq, length, length-append, Bool-cases, inl, inr,
}
use tft_stats_analytics.Base.Count.{count, count-append}
use tft_stats_analytics.Base.Dict.{get_or-insert, beq_refl, string_eq}
use tft_stats_analytics.Proto.{MatchEvent}
use tft_stats_analytics.Processor.Subscriber.{
  OffsetStore, path, load, save, Subscriber, Signal, message, elsewhere, subscribe, receive,
}

module _ (partition : String) where
  -- Another partition's file is another one.
  abbrev pub IsApart : Signal → Type 0
  IsApart (elsewhere other offset) = str_eq (path other) (path partition) ≡ false
  IsApart _ = Unit

  abbrev pub saved : Subscriber → ℕ
  saved s = load partition s.files

  load-save :
      (offset : ℕ) (files : OffsetStore) → load partition (save partition offset files) ≡ offset
  unfolding load save
  load-save offset files = ground (
    arith,
    get_or-insert 0 (path partition) (path partition) offset files,
    beq_refl (path partition),
  )

  load-save-other :
      (other : String) (offset : ℕ) (files : OffsetStore)
      → str_eq (path other) (path partition) ≡ false
      → load partition (save other offset files) ≡ load partition files
  unfolding load save
  load-save-other other offset files apart =
      ground (arith, get_or-insert 0 (path other) (path partition) offset files)

abbrev pub has_offset : ℕ → ℕ × MatchEvent → Bool
has_offset offset m = m.0 == offset

-- A thread that began at the offset `lo` and has lost so many sessions: all messages from there up to
-- the next one, except those that are `gone`, are on the queue, each as the log has it; the file is
-- not ahead of them, and at most 50 behind; and each lost session has repeated at most 50.
pub record IsTailing (partition : String) (log : ℕ → MatchEvent) (lo sessions : ℕ) (gone : ℕ → Bool)
    (s : Subscriber) : Type 0 where
  pub complete : (o : ℕ) → lo ≤ o → o < s.next → gone o ≡ false → 0 < count (has_offset o) s.put
  pub faithful : All (λ m. m.1 ≡ log m.0) s.put
  pub began : lo ≤ saved partition s
  pub not_ahead : saved partition s ≤ s.next
  pub not_behind : s.next ≤ s.last_saved + 50
  pub marked : (s.last_saved ≤ saved partition s) × (saved partition s ≤ s.last_saved + 1)
  pub repeated : lo + length s.put ≤ s.next + 50 * sessions

-- The broker had dropped the offset when the thread, not yet past it, took a message.
abbrev pub trimmed_at : Signal → Subscriber → ℕ → Bool
trimmed_at (message base) s o = leb s.next o && ltb o base
trimmed_at _ s o = false

module _ (partition : String) (log : ℕ → MatchEvent) (lo : ℕ) where
  pub subscribe-IsTailing :
      (n : ℕ) (gone : ℕ → Bool) (s : Subscriber)
      → IsTailing partition log lo n gone s
      → IsTailing partition log lo (n + 1) gone (subscribe partition log s)
  unfolding subscribe
  subscribe-IsTailing n gone s v = record {
    complete = λ o above below there. v.complete o above (omega (arith, v.not_ahead)) there;
    faithful = v.faithful;
    began = v.began;
    not_ahead = omega arith;
    not_behind = omega arith;
    marked = (omega arith, omega arith);
    repeated = omega (arith, v.repeated, v.not_behind, v.marked);
  }

  -- A message that comes after the gap `[s.next, base)`, if there is one.
  queued_before :
      (base : ℕ) (gone : ℕ → Bool) (s : Subscriber) (o : ℕ) (event : MatchEvent)
      → (o < s.next → gone o ≡ false → 0 < count (has_offset o) s.put)
      → o < max s.next base + 1
      → (gone o || trimmed_at (message base) s o) ≡ false
      → 0 < count (has_offset o) (s.put ++ ((max s.next base, event) ∷ []))
  queued_before base gone s o event there below kept = elim (Bool-cases (max s.next base == o)) [
    | inl e ↦ ground (arith, count-append (has_offset o) s.put ((max s.next base, event) ∷ []))
    | inr e ↦ omega (
      arith,
      count-append (has_offset o) s.put ((max s.next base, event) ∷ []),
      there (ground arith) (ground arith),
    )
  ]

  pub receive-IsTailing :
      (base n : ℕ) (gone : ℕ → Bool) (s : Subscriber)
      → IsTailing partition log lo n gone s
      → IsTailing partition log lo n
          (λ o. gone o || trimmed_at (message base) s o)
          (receive partition log (max s.next base) s)
  unfolding receive
  receive-IsTailing base n gone s v =
      let at = max s.next base in
      let ahead : s.next ≤ at = omega arith in
      let real = All-append (λ m. m.1 ≡ log m.0) s.put ((at, log at) ∷ []) v.faithful (refl, tt) in
      let longer = length-append s.put ((at, log at) ∷ []) in
      elim (Bool-cases (leb (s.last_saved + 50) at)) [
        | inl e ↦
            rw (receive, e)
              (let same = load-save partition (at + 1) s.files in
                record {
                  complete = λ o above. queued_before base gone s o (log at) (v.complete o above);
                  faithful = real;
                  began = omega (arith, same, v.began, v.not_ahead, ahead);
                  not_ahead = omega (arith, same);
                  not_behind = omega arith;
                  marked = (omega (arith, same), omega (arith, same));
                  repeated = omega (arith, v.repeated, longer, ahead);
                })
        | inr e ↦
            rw (receive, e)
              (record {
                complete = λ o above. queued_before base gone s o (log at) (v.complete o above);
                faithful = real;
                began = v.began;
                not_ahead = omega (arith, v.not_ahead, ahead);
                not_behind = ground arith;
                marked = v.marked;
                repeated = omega (arith, v.repeated, longer, ahead);
              })
      ]

  pub elsewhere-IsTailing :
      (n : ℕ) (gone : ℕ → Bool) (s : Subscriber) (other : String) (offset : ℕ)
      → IsApart partition (elsewhere other offset)
      → IsTailing partition log lo n gone s
      → IsTailing partition log lo n gone (record s { files = save other offset s.files })
  elsewhere-IsTailing n gone s other offset apart v =
      let same = load-save-other partition other offset s.files apart in
      record {
        complete = v.complete;
        faithful = v.faithful;
        began = omega (arith, same, v.began);
        not_ahead = omega (arith, same, v.not_ahead);
        not_behind = v.not_behind;
        marked = (omega (arith, same, v.marked), omega (arith, same, v.marked));
        repeated = v.repeated;
      }

  -- Other numbers of sessions and other offsets that are gone, which are the same ones.
  pub IsTailing-same :
      (n m : ℕ) (gone gone' : ℕ → Bool) (s : Subscriber)
      → n ≡ m
      → ((o : ℕ) → gone o ≡ gone' o)
      → IsTailing partition log lo n gone s
      → IsTailing partition log lo m gone' s
  IsTailing-same n m gone gone' s p q v = record {
    complete = λ o above below kept. v.complete o above below (q o ∙ kept);
    faithful = v.faithful;
    began = v.began;
    not_ahead = v.not_ahead;
    not_behind = v.not_behind;
    marked = v.marked;
    repeated = omega (arith, v.repeated);
  }
