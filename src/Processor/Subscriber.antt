-- ===== src/Processor/Subscriber.antt =====
-- `OffsetStore` and `Processor._subscribe_partition` of processor/main.py: one subscriber thread, and
-- what the threads of the other partitions save meanwhile. The log of the
-- partition is a parameter. The broker sends its messages from the requested offset on, one after the
-- other, but goes on at the oldest one that it still holds when that is above. The queue takes an
-- event when it has room, and the thread waits until then.
pub mod Tail
pub mod Delivery
use tft_stats_analytics.Base.{ℕ, ◌+◌, max, String, ◌<>◌, List, [], ◌∷◌, ◌++◌, leb, if◌then◌else◌}
use tft_stats_analytics.Base.Dict.{get_or, insert, string_eq}
use tft_stats_analytics.Base.Text.{replace_char}
use tft_stats_analytics.Proto.{MatchEvent}

-- The offset files by their names; a file that is missing or holds no number counts as absent.
abbrev pub OffsetStore : Type 0
OffsetStore = List (String × ℕ)

-- `OffsetStore._path`, in the directory
unfoldable pub path : String → String
unfolding replace_char
path partition = replace_char "/" "_" partition <> ".offset"

-- `OffsetStore.load`
unfoldable pub load : String → OffsetStore → ℕ
unfolding get_or path
load partition files = get_or 0 (path partition) files

-- `OffsetStore.save`
unfoldable pub save : String → ℕ → OffsetStore → OffsetStore
unfolding insert path
save partition offset files = insert (path partition) offset files

-- The thread: the files, its session, and all that it has put on the queue.
pub record Subscriber : Type 0 where
  pub files : OffsetStore
  pub last_saved : ℕ
  pub next : ℕ
  pub put : List (ℕ × MatchEvent)

-- What happens next: a message comes, while the broker holds the partition's messages from the given
-- offset on; the session ends with an exception, or the thread of another
-- partition saves its offset.
pub data Signal : Type 0 where
  message : ℕ → Signal
  lost : Signal
  elsewhere : String → ℕ → Signal

module _ (partition : String) (log : ℕ → MatchEvent) where
  -- A session starts at the saved offset.
  unfoldable pub subscribe : Subscriber → Subscriber
  unfolding load
  subscribe s = let start = load partition s.files in record s { last_saved = start; next = start }

  -- The thread at its start.
  unfoldable pub start : OffsetStore → Subscriber
  unfolding subscribe
  start files = subscribe (record { files = files; last_saved = 0; next = 0; put = [] })

  -- The body of the loop over the messages.
  unfoldable pub receive : ℕ → Subscriber → Subscriber
  unfolding save
  receive offset s =
      let queued : List (ℕ × MatchEvent) = s.put ++ ((offset, log offset) ∷ []) in
      if leb (s.last_saved + 50) offset
      then record s {
        files = save partition (offset + 1) s.files;
        last_saved = offset;
        next = offset + 1;
        put = queued;
      }
      else record s { next = offset + 1; put = queued }

  unfoldable pub step : Signal → Subscriber → Subscriber
  unfolding receive subscribe save
  step (message base) s = receive (max s.next base) s
  step lost s = subscribe s
  step (elsewhere other offset) s = record s { files = save other offset s.files }

  unfoldable pub run : List Signal → Subscriber → Subscriber
  unfolding step
  run [] s = s
  run (signal ∷ signals) s = run signals (step signal s)
