-- ===== src/BackgroundThread/Life.antt =====
-- The life of the background thread: when it runs tasks, and in which order.
use whippet.Base.{◌≡◌, ◌≢◌, ◌>>=◌}
use whippet.BackgroundThread.{
  ThreadState, starting, running, stopping, BackgroundThread, make_background_thread, Phase,
  waiting, ended, World,
}
use whippet.BackgroundThread.Order.{IsValid}

-- The state of the thread stays, and its tasks stay valid.
record Keeps (thread thread' : BackgroundThread) : Type 0 where
  valid : IsValid thread'
  same : thread'.state ≡ thread.state

-- While it is to run, the thread has not ended.
abbrev Going : ThreadState → Phase → Type 0
Going starting phase = Unit {0}
Going running phase = phase ≢ ended
Going stopping phase = Unit {0}

module _ {ℓ} {Heap : Type ℓ} where
  abbrev pub new_world : Heap → World Heap
  new_world heap = record { thread = make_background_thread; phase = waiting; heap = heap }

  -- Before the start no task has run.
  abbrev NotYet : Heap → ThreadState → Phase → Heap → Type ℓ
  NotYet heap starting phase heap' = (phase ≡ waiting) × (heap' ≡ heap)
  NotYet heap running phase heap' = Unit {ℓ}
  NotYet heap stopping phase heap' = Unit {ℓ}

  pub record Reached (heap : Heap) (w : World Heap) : Type ℓ where
    pub valid : IsValid w.thread
    pub not_yet : NotYet heap w.thread.state w.phase w.heap
    pub going : Going w.thread.state w.phase
