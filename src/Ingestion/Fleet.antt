-- ===== src/Ingestion/Fleet.antt =====
-- `process_synthetic` of ingestion/main.py as the workers run it: tasks of one process that share the
-- `SeqCounter` and the random generator, and that take turns at each `await`. A task takes a number
-- and makes its match without waiting; the executor's thread then publishes the match, while other
-- tasks run. `choices` is `random.choices(…)[0]`, and the broker's answer to a publication is a
-- parameter, as in Ingestor.
pub mod Delivery
use tft_stats_analytics.Base.{
  ℕ, zero, suc, String, Bool, Option, none, some, List, [], ◌∷◌, get_elem?, set,
}
use tft_stats_analytics.Base.Float.{Float}
use tft_stats_analytics.Proto.{MatchEvent}
use tft_stats_analytics.Ingestion.Ingestor.{
  Ingestor, Ending, finished, failed, next_seq, publish_match, patch_weights,
}
use tft_stats_analytics.Ingestion.Synthetic.{Rng, generate_match}

-- A worker: its task, how many matches of it are still to be made, and the match that is being
-- published.
pub record Worker : Type 0 where
  pub region : String
  pub tier : String
  pub left : ℕ
  pub held : Option MatchEvent

-- What the process reads at its start.
pub record Config : Type 0 where
  pub node_id : String
  pub patches : List String
  pub matches_per_task : ℕ

-- What happens next: the worker at an index takes a task from the queue, makes the next match of its
-- task at a time, or has it published.
pub data Turn : Type 0 where
  serves : ℕ → String → String → Turn
  makes : ℕ → ℕ → Turn
  publishes : ℕ → Turn

-- The process, with the state of the generator.
pub record Fleet (S : Type 0) : Type 0 where
  pub ingestor : Ingestor
  pub workers : List Worker
  pub state : S

module _ (fl : Float) (md5_head : String → ℕ) (rng : Rng fl.F)
    (choices : List String → List ℕ → rng.State → String × rng.State) (accepts : MatchEvent → Bool)
    (config : Config) where
  abbrev pub Process : Type 0
  Process = Fleet rng.State

  abbrev pub write : ℕ → Worker → Process → Process
  write i w f = record f { workers = set f.workers i w }

  -- `worker`: one that has no task left takes the next one.
  unfoldable pub take_task : ℕ → String → String → ℕ → Option MatchEvent → Process → Process
  take_task i region tier zero none f =
      write i (record { region = region; tier = tier; left = config.matches_per_task; held = none })
        f
  take_task i region tier left held f = f

  -- The body of the loop of `process_synthetic` up to its `await`, with `_pick_patch`.
  unfoldable pub make_match : ℕ → ℕ → Worker → ℕ → Option MatchEvent → Process → Process
  unfolding next_seq generate_match patch_weights
  make_match i now w (suc left) none f =
      let taken = next_seq f.ingestor in
      let picked = choices config.patches (patch_weights 0 config.patches) f.state in
      let made =
        generate_match fl md5_head rng w.region w.tier picked.0 config.node_id taken.1 now
          picked.1 in
      record f {
        ingestor = taken.0;
        workers = set f.workers i (record w { left = left; held = some made.0 });
        state = made.1;
      }
  make_match i now w left held f = f

  -- After the publication the loop goes on. An exception ends the task; the worker catches it.
  abbrev pub settle : ℕ → Worker → Ingestor × Ending → Process → Process
  settle i w (s, finished) f = record f {
    ingestor = s;
    workers = set f.workers i (record w { held = none });
  }
  settle i w (s, failed) f = record f {
    ingestor = s;
    workers = set f.workers i (record w { left = 0; held = none });
  }

  unfoldable pub end_match : ℕ → Worker → Option MatchEvent → Process → Process
  unfolding publish_match
  end_match i w none f = f
  end_match i w (some event) f = settle i w (publish_match accepts event f.ingestor) f

  unfoldable pub turn : Turn → Process → Process
  unfolding take_task make_match end_match
  turn (serves i region tier) f = elim (get_elem? f.workers i) [
    | none ↦ f
    | some w ↦ take_task i region tier w.left w.held f
  ]
  turn (makes i now) f = elim (get_elem? f.workers i) [
    | none ↦ f
    | some w ↦ make_match i now w w.left w.held f
  ]
  turn (publishes i) f = elim (get_elem? f.workers i) [ none ↦ f | some w ↦ end_match i w w.held f ]

  unfoldable pub run_turns : List Turn → Process → Process
  unfolding turn
  run_turns [] f = f
  run_turns (t ∷ turns) f = run_turns turns (turn t f)

  abbrev pub idle : Worker
  idle = record { region = ""; tier = ""; left = 0; held = none }

  abbrev pub idle_workers : ℕ → List Worker
  idle_workers zero = []
  idle_workers (suc n) = idle ∷ idle_workers n

  -- The process at its start, with so many workers.
  unfoldable pub started : ℕ → rng.State → Process
  started workers state = record {
    ingestor = record { seq = 0; published = [] };
    workers = idle_workers workers;
    state = state;
  }
