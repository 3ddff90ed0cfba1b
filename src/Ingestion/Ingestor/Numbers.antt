-- ===== src/Ingestion/Ingestor/Numbers.antt =====
-- The sequence numbers of the events that the tasks of ingestion/main.py publish.
use tft_stats_analytics.Base.{
  ℕ, ◌+◌, ◌≤◌, ◌<◌, String, ◌≡◌, refl, sym, ap, ◌∙◌, Bool, true, Option, none, some, List, [], ◌∷◌,
  ◌++◌, arith, Bool-cases, inl, inr, append_assoc, append-nil, take,
}
use tft_stats_analytics.Base.Result.{Result, ok, err}
use tft_stats_analytics.Proto.{MatchEvent}
use tft_stats_analytics.RiotPayload.{RawMatch}
use tft_stats_analytics.Ingestion.RiotClient.{Raised}
use tft_stats_analytics.Processor.Reorder.CatchUp.{is_event}
use tft_stats_analytics.Ingestion.Ingestor.{
  Ingestor, Ending, finished, failed, next_seq, publish_match, publish_result, and_then,
  process_match_id, process_matches, process_real,
}

-- Each event has the producer's clock and a number above `lo` and those before it, up to `hi`.
abbrev pub IsNumbered : String → ℕ → ℕ → List MatchEvent → Type 0
IsNumbered node lo hi [] = lo ≤ hi
IsNumbered node lo hi (e ∷ es) =
    (s : ℕ) × (lo < s) × (is_event node s e ≡ true) × IsNumbered node s hi es

IsNumbered-le :
    (node : String) (lo hi : ℕ) (es : List MatchEvent) → IsNumbered node lo hi es → lo ≤ hi
IsNumbered-le node lo hi [] h = h
IsNumbered-le node lo hi (e ∷ es) (s, above, _, rest) =
    omega (arith, IsNumbered-le node s hi es rest)

IsNumbered-from :
    (node : String) (lo lo' hi : ℕ) (es : List MatchEvent)
    → lo' ≤ lo
    → IsNumbered node lo hi es
    → IsNumbered node lo' hi es
IsNumbered-from node lo lo' hi [] le h = omega arith
IsNumbered-from node lo lo' hi (e ∷ es) le (s, above, is, rest) = (s, omega arith, is, rest)

IsNumbered-append :
    (node : String) (lo mid hi : ℕ) (es fs : List MatchEvent)
    → IsNumbered node lo mid es
    → IsNumbered node mid hi fs
    → IsNumbered node lo hi (es ++ fs)
IsNumbered-append node lo mid hi [] fs h k = IsNumbered-from node mid lo hi fs h k
IsNumbered-append node lo mid hi (e ∷ es) fs (s, above, is, rest) k =
    (s, above, is, IsNumbered-append node s mid hi es fs rest k)

-- What a task has done: it has only added numbered events, by as many numbers as it took.
pub record HasRun (node : String) (s : Ingestor) (s' : Ingestor) : Type 0 where
  pub added : List MatchEvent
  pub log : s'.published ≡ s.published ++ added
  pub numbered : IsNumbered node s.seq s'.seq added

HasRun-refl : (node : String) (s : Ingestor) → HasRun node s s
HasRun-refl node s = record {
  added = [];
  log = sym (append-nil s.published);
  numbered = omega arith;
}

HasRun-trans :
    (node : String) (s t u : Ingestor) → HasRun node s t → HasRun node t u → HasRun node s u
HasRun-trans node s t u h k = record {
  added = h.added ++ k.added;
  log = k.log ∙ ap (λ l. l ++ k.added) h.log ∙ append_assoc s.published h.added k.added;
  numbered = IsNumbered-append node s.seq t.seq u.seq h.added k.added h.numbered k.numbered;
}

module _ (accepts : MatchEvent → Bool) (node : String) where
  publish-HasRun :
      (event : MatchEvent) (s : Ingestor)
      → is_event node (s.seq + 1) event ≡ true
      → HasRun node s (publish_match accepts event (next_seq s).0).0
  unfolding publish_match next_seq
  publish-HasRun event s is = elim (Bool-cases (accepts event)) [
    | inl e ↦ rw e (record {
      added = event ∷ [];
      log = refl;
      numbered = (s.seq + 1, omega arith, is, omega arith);
    })
    | inr e ↦
        rw e (record { added = []; log = sym (append-nil s.published); numbered = omega arith })
  ]

  and_then-HasRun :
      (s : Ingestor) (r : Ingestor × Ending) (k : Ingestor → Ingestor × Ending)
      → HasRun node s r.0
      → ((t : Ingestor) → HasRun node t (k t).0)
      → HasRun node s (and_then accepts r k).0
  and_then-HasRun s (t, finished) k h rest = HasRun-trans node s t (k t).0 h (rest t)
  and_then-HasRun s (t, failed) k h rest = h

  module _ (normalize : RawMatch → ℕ → Result Raised (Option MatchEvent))
      (stamps : (raw : RawMatch) (seq : ℕ) (e : MatchEvent)
        → normalize raw seq ≡ ok (some e)
        → is_event node seq e ≡ true) where
    process_match_id-HasRun :
        (raw : Option RawMatch) (s : Ingestor)
        → HasRun node s (process_match_id accepts normalize raw s).0
    unfolding process_match_id next_seq
    process_match_id-HasRun none s = HasRun-refl node s
    process_match_id-HasRun (some raw) s = go (normalize raw (next_seq s).1) refl
      where
        go :
            (r : Result Raised (Option MatchEvent))
            → normalize raw (next_seq s).1 ≡ r
            → HasRun node s (publish_result accepts r (next_seq s).0).0
        go (err e) q = record {
          added = [];
          log = sym (append-nil s.published);
          numbered = omega arith;
        }
        go (ok none) q = record {
          added = [];
          log = sym (append-nil s.published);
          numbered = omega arith;
        }
        go (ok (some event)) q = publish-HasRun event s (stamps raw (s.seq + 1) event q)

    process_matches-HasRun :
        (raws : List (Option RawMatch)) (s : Ingestor)
        → HasRun node s (process_matches accepts normalize raws s).0
    unfolding process_matches
    process_matches-HasRun [] s = HasRun-refl node s
    process_matches-HasRun (raw ∷ raws) s =
        and_then-HasRun s _ (process_matches accepts normalize raws) (process_match_id-HasRun raw s)
          (process_matches-HasRun raws)

    -- Whatever the payloads and the broker's answers, and whether it ends by an exception or not,
    -- `process_real` only adds events to what is published; their numbers strictly ascend, above the
    -- counter before and up to the counter after.
    pub process_real-HasRun :
        (players : List (List (Option RawMatch))) (s : Ingestor)
        → HasRun node s (process_real accepts normalize players s).0
    unfolding process_real
    process_real-HasRun [] s = HasRun-refl node s
    process_real-HasRun (raws ∷ players) s =
        and_then-HasRun s _ (process_real accepts normalize players)
          (process_matches-HasRun (take 5 raws) s) (process_real-HasRun players)
