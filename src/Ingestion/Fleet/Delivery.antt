-- ===== src/Ingestion/Fleet/Delivery.antt =====
-- The workers of ingestion/main.py and the reorder buffer: what they publish is delivered by
-- `pop_ready` of processor/reorder.py.
use tft_stats_analytics.Base.{
  ℕ, zero, suc, ◌+◌, ◌≤◌, ◌<◌, String, ◌≡◌, refl, ap, leb, Bool, true, false, Option, none, some,
  List, [], ◌∷◌, arith, get_elem?, set, Bool-cases, Option-cases, inl, inr, eq_iff,
}
use tft_stats_analytics.Base.Count.{bit, count, count-set, count-append}
use tft_stats_analytics.Base.Float.{Float}
use tft_stats_analytics.Proto.{MatchEvent}
use tft_stats_analytics.Processor.Reorder.{ReorderBuffer, watermark, pop_ready}
use tft_stats_analytics.Processor.Reorder.Conserve.{buffered, pop_ready_conserves}
use tft_stats_analytics.Processor.Reorder.CatchUp.{is_event, IsContiguous, pop_ready_catches_up}
use tft_stats_analytics.Ingestion.Ingestor.{publish_match, next_seq, patch_weights}
use tft_stats_analytics.Ingestion.Synthetic.{Rng, generate_match}
use tft_stats_analytics.Ingestion.Fleet.{
  Worker, Config, Turn, serves, makes, publishes, Fleet, take_task, make_match, end_match, turn,
  run_turns, started,
}

abbrev holds_event : String → ℕ → Option MatchEvent → Bool
holds_event node s none = false
holds_event node s (some event) = is_event node s event

-- The worker's match with this number is being published.
abbrev pub holds : String → ℕ → Worker → Bool
holds node s w = holds_event node s w.held

-- What a call of `pop_ready` makes of the buffer.
pub record IsDelivered (node : String) (n : ℕ) (b : ReorderBuffer)
    (result : ReorderBuffer × List MatchEvent) : Type 0 where
  pub raised : n ≤ watermark result.0.delivered node
  pub returned :
      (s : ℕ) → watermark b.delivered node < s → s ≤ n → 0 < count (is_event node s) result.1
  pub none_left : (s : ℕ) → s ≤ n → buffered (is_event node s) result.0.heap ≡ 0

module _ (fl : Float) (md5_head : String → ℕ) (rng : Rng fl.F)
    (choices : List String → List ℕ → rng.State → String × rng.State) (accepts : MatchEvent → Bool)
    (config : Config) (all : (event : MatchEvent) → accepts event ≡ true) where
  abbrev after : List Turn → Fleet rng.State → Fleet rng.State
  after turns f = run_turns fl md5_head rng choices accepts config turns f

  abbrev begun : ℕ → rng.State → Fleet rng.State
  begun workers state = started fl md5_head rng choices accepts config workers state

  -- Every number that was taken is published, or being published.
  abbrev IsAccounted : Fleet rng.State → Type 0
  IsAccounted f =
      (s : ℕ)
      → 0 < s
      → s ≤ f.ingestor.seq
      → 0
        < count (is_event config.node_id s) f.ingestor.published
          + count (holds config.node_id s) f.workers

  -- A worker that held nothing is written with what it holds now.
  written :
      (s i : ℕ) (w v : Worker) (f : Fleet rng.State)
      → get_elem? f.workers i ≡ some w
      → w.held ≡ none
      → count (holds config.node_id s) (set f.workers i v)
        ≡ count (holds config.node_id s) f.workers + bit (holds config.node_id s v)
  written s i w v f there q =
      let free : holds config.node_id s w ≡ false = rw q refl in
      ground (arith, count-set (holds config.node_id s) f.workers i v w there)

  take_task-IsAccounted :
      (i : ℕ) (region tier : String) (w : Worker) (left : ℕ) (held : Option MatchEvent)
      (f : Fleet rng.State)
      → get_elem? f.workers i ≡ some w
      → w.held ≡ held
      → IsAccounted f
      → IsAccounted (take_task fl md5_head rng choices accepts config i region tier left held f)
  unfolding take_task
  take_task-IsAccounted i region tier w zero none f there q h = λ s pos le. omega (
    arith,
    h s pos le,
    written s i w
        (record { region = region; tier = tier; left = config.matches_per_task; held = none }) f
        there q,
  )
  take_task-IsAccounted i region tier w zero (some e) f there q h = h
  take_task-IsAccounted i region tier w (suc left) held f there q h = h

  make_match-IsAccounted :
      (i now : ℕ) (w : Worker) (left : ℕ) (held : Option MatchEvent) (f : Fleet rng.State)
      → get_elem? f.workers i ≡ some w
      → w.held ≡ held
      → IsAccounted f
      → IsAccounted (make_match fl md5_head rng choices accepts config i now w left held f)
  unfolding make_match next_seq
  make_match-IsAccounted i now w zero held f there q h = h
  make_match-IsAccounted i now w (suc left) (some e) f there q h = h
  make_match-IsAccounted i now w (suc left) none f there q h = λ s pos le.
      let node = config.node_id in
      let picked = choices config.patches (patch_weights 0 config.patches) f.state in
      let made =
        (generate_match fl md5_head rng w.region w.tier picked.0 node (f.ingestor.seq + 1) now
          picked.1).0 in
      let grown = written s i w (record w { left = left; held = some made }) f there q in
      elim (Bool-cases (leb s f.ingestor.seq)) [
        | inl old ↦ omega (arith, h s pos (ground arith), grown)
        | inr new ↦
            let same : is_event node s made ≡ true = ground (arith, eq_iff node node) in
            ground (arith, grown)
      ]

  end_match-IsAccounted :
      (i : ℕ) (w : Worker) (held : Option MatchEvent) (f : Fleet rng.State)
      → get_elem? f.workers i ≡ some w
      → w.held ≡ held
      → IsAccounted f
      → IsAccounted (end_match fl md5_head rng choices accepts config i w held f)
  unfolding end_match publish_match
  end_match-IsAccounted i w none f there q h = h
  end_match-IsAccounted i w (some e) f there q h =
      rw (end_match, publish_match, all e)
        (λ s pos le.
          let mine : holds config.node_id s w ≡ is_event config.node_id s e = rw q refl in
          omega (
            arith,
            h s pos le,
            count-append (is_event config.node_id s) f.ingestor.published (e ∷ []),
            ap bit mine,
            count-set (holds config.node_id s) f.workers i (record w { held = none }) w there,
          ))

  turn-IsAccounted :
      (t : Turn) (f : Fleet rng.State)
      → IsAccounted f
      → IsAccounted (turn fl md5_head rng choices accepts config t f)
  unfolding turn
  turn-IsAccounted (serves i region tier) f h = elim (Option-cases (get_elem? f.workers i)) [
    | inl e ↦ rw (turn, e) h
    | inr (w, e) ↦ rw (turn, e) (take_task-IsAccounted i region tier w w.left w.held f e refl h)
  ]
  turn-IsAccounted (makes i now) f h = elim (Option-cases (get_elem? f.workers i)) [
    | inl e ↦ rw (turn, e) h
    | inr (w, e) ↦ rw (turn, e) (make_match-IsAccounted i now w w.left w.held f e refl h)
  ]
  turn-IsAccounted (publishes i) f h = elim (Option-cases (get_elem? f.workers i)) [
    | inl e ↦ rw (turn, e) h
    | inr (w, e) ↦ rw (turn, e) (end_match-IsAccounted i w w.held f e refl h)
  ]

  run_turns-IsAccounted :
      (turns : List Turn) (f : Fleet rng.State) → IsAccounted f → IsAccounted (after turns f)
  unfolding run_turns
  run_turns-IsAccounted [] f h = h
  run_turns-IsAccounted (t ∷ turns) f h =
      run_turns-IsAccounted turns (turn fl md5_head rng choices accepts config t f)
        (turn-IsAccounted t f h)

  -- A process of any number of workers starts, and after any turns of them all matches with a number
  -- up to `n`, which was taken, are published. Where the broker takes every event, and the reorder
  -- buffer has what was published above the node's watermark, in whatever order it came and whatever
  -- else is there: `pop_ready` raises the watermark to `n`, returns a match for each number that it
  -- passes, and leaves none with a number up to `n` behind.
  pub synthetic_delivered :
      (workers : ℕ) (state : rng.State) (turns : List Turn) (n now : ℕ) (b : ReorderBuffer)
      → n ≤ (after turns (begun workers state)).ingestor.seq
      → ((s : ℕ)
          → s ≤ n
          → count (holds config.node_id s) (after turns (begun workers state)).workers ≡ 0)
      → ((s : ℕ)
          → watermark b.delivered config.node_id < s
          → s ≤ n
          → count (is_event config.node_id s) (after turns (begun workers state)).ingestor.published
            ≤ buffered (is_event config.node_id s) b.heap)
      → IsDelivered config.node_id n b (pop_ready now b)
  unfolding started
  synthetic_delivered workers state turns n now b taken done arrived =
      let f = after turns (begun workers state) in
      let begins : IsAccounted (begun workers state) = λ s pos le. absurd (omega arith) in
      let there : IsContiguous now b config.node_id n = λ s above le. omega (
        arith,
        run_turns-IsAccounted turns (begun workers state) begins s (omega arith) (omega arith),
        done s le,
        arrived s above le,
      ) in
      let (raised, left) = pop_ready_catches_up now b config.node_id n there in
      record {
        raised = raised;
        returned = λ s above le. omega (
          arith,
          there s above le,
          left s le,
          pop_ready_conserves (is_event config.node_id s) now b,
        );
        none_left = left;
      }
