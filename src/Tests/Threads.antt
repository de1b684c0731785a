-- ===== src/Tests/Threads.antt =====
-- Examples for WorkerPool.cpp and SignalHandler.cpp.
use universal_fencing_hub.Base.{
  ◌+◌, ◌≤◌, ◌<◌, ◌≡◌, refl, ◌⊎◌, true, false, [], ◌∷◌, ◌++◌, none, some, arith,
}
use universal_fencing_hub.WorkerPool.{
  ready, working, waiting, ended, WorkerPool, notify_all, look, loop_head, start, stop_threads,
  Turn, turning, thread, Reach, here, later,
}
use universal_fencing_hub.WorkerPool.Waking.{awake, astray, total, Runs, Reach-Runs}
use universal_fencing_hub.WorkerPool.Stopping.{
  Turns, none_yet, one_more, AllEnded, stop_threads-ends,
}
use universal_fencing_hub.Signals.{SignalHandler, interrupted, wrote, initial, is_signaled}
use universal_fencing_hub.Signals.Delivery.{
  disables, enables, catches, call, calls_of, is_signaled_lem,
}

-- Of two threads, the first finds no client, and waits.
abbrev one_waits : WorkerPool
one_waits = record { workers = waiting ∷ ready ∷ []; action_count = 0; stop_workers = false }

start-one_waits : Reach (start 2 none) one_waits
unfolding start loop_head look
start-one_waits = later here (thread (turning [] (ready ∷ []) refl refl))

Reach-Runs_example : Runs one_waits 2
Reach-Runs_example = Reach-Runs 2 one_waits (omega arith) start-one_waits

-- A pool that is stopped while the second thread works and a client is left.
abbrev busy_pool : WorkerPool
busy_pool = record { workers = waiting ∷ working ∷ []; action_count = 1; stop_workers = false }

abbrev one_ended : WorkerPool
one_ended = record { workers = ended ∷ working ∷ []; action_count = 1; stop_workers = true }

busy_pool-one_ended : Turns (stop_threads busy_pool) 1 one_ended
unfolding stop_threads notify_all loop_head
busy_pool-one_ended = one_more none_yet (turning [] (working ∷ []) refl refl)

stop_threads-ends_example :
    (1 ≤ 1 + total awake (notify_all (waiting ∷ working ∷ [])))
    × (AllEnded (ended ∷ working ∷ [])
        ⊎ ((v : WorkerPool) × Turn one_ended v)
        ⊎ (0 < total astray (ended ∷ working ∷ [])))
stop_threads-ends_example = stop_threads-ends busy_pool one_ended 1 busy_pool-one_ended

-- A signal comes while the wakeup descriptor is set, which is cleared then.
abbrev signaled_pipe : SignalHandler
signaled_pipe = record { signal_flag = true; wakeup_fd = none; written = 7 ∷ [] }

four_calls :
    calls_of initial ((enables 7 ∷ []) ++ catches (interrupted ∷ wrote ∷ []) ∷ disables ∷ [])
    ≡ some signaled_pipe
unfolding call initial
four_calls = refl

is_signaled_lem_example : is_signaled signaled_pipe ≡ true
is_signaled_lem_example =
    is_signaled_lem (enables 7 ∷ []) (catches (interrupted ∷ wrote ∷ [])) (disables ∷ []) initial
      signaled_pipe tt four_calls
