-- ===== src/WorkerPool.antt =====
-- WorkerPool.h and WorkerPool.cpp, with the loop of process_action_queue that a worker thread runs: the
-- threads, the condition variable and the flag that stops them. The pool's lock is the lock of the
-- action queue, so of that queue only the number of its clients is kept.
pub mod Waking
pub mod Stopping
use universal_fencing_hub.Base.{
  ℕ, zero, suc, ◌+◌, ◌<◌, ◌≡◌, Bool, true, false, List, [], ◌∷◌, ◌++◌, Option, none, some, map,
  if◌then◌else◌, replicate,
}

-- Where a worker thread is, between two stretches of code under the lock: it waits for the lock at the
-- head of worker_loop, it processes a message, it waits on the condition variable, or it has returned.
-- One that is `lapsed` is back in worker_loop without the lock, after an exception in
-- process_action_queue; what its wait on the condition variable does then is undefined.
pub data Worker : Type 0 where
  ready working waiting ended lapsed : Worker

pub record WorkerPool : Type 0 where
  pub workers : List Worker
  pub action_count : ℕ
  pub stop_workers : Bool

unfoldable pub wake : Worker → Worker
wake ready = ready
wake working = working
wake waiting = ready
wake ended = ended
wake lapsed = lapsed

-- pool_condition.notify_all
unfoldable pub notify_all : List Worker → List Worker
unfolding wake
notify_all = map wake

-- The thread, and the clients that are left, when the action queue is looked at: in
-- process_action_queue, and behind it in worker_loop, up to the wait or the next turn. Where an exception
-- ends process_action_queue, the queue is not looked at: that is `lapsing` below.
unfoldable pub look : Bool → ℕ → Worker × ℕ
look stop_workers (suc clients) = (working, clients)
look true zero = (ended, zero)
look false zero = (waiting, zero)

-- The head of worker_loop.
unfoldable pub loop_head : Bool → ℕ → Worker × ℕ
unfolding look
loop_head true clients = (ended, clients)
loop_head false clients = look false clients

-- start: a thread for each place, up to a failure of the one with this index.
unfoldable pub start : ℕ → Option ℕ → WorkerPool
unfolding notify_all
start pool_size none = record {
  workers = replicate pool_size ready;
  action_count = 0;
  stop_workers = false;
}
start pool_size (some failed) = record {
  workers = notify_all (replicate failed ready);
  action_count = 0;
  stop_workers = true;
}

unfoldable pub stop_threads : WorkerPool → WorkerPool
unfolding notify_all
stop_threads s = record s { workers = notify_all s.workers; stop_workers = true }

-- A thread has the lock, or gives up processing without it.
pub data Turn (s u : WorkerPool) : Type 0 where
  -- worker_loop, from its head, with the lock.
  turning :
      (pre post : List Worker)
      → s.workers ≡ pre ++ ready ∷ post
      → u ≡ record s {
        workers = pre ++ (loop_head s.stop_workers s.action_count).0 ∷ post;
        action_count = (loop_head s.stop_workers s.action_count).1;
      }
      → Turn s u
  -- process_action_queue, from where it has the lock again.
  returning :
      (pre post : List Worker)
      → s.workers ≡ pre ++ working ∷ post
      → u ≡ record s {
        workers = pre ++ (look s.stop_workers s.action_count).0 ∷ post;
        action_count = (look s.stop_workers s.action_count).1;
      }
      → Turn s u
  -- process_action_queue, when process_client_message throws: the handler behind the loop neither takes
  -- the lock again nor looks at the action queue.
  lapsing :
      (pre post : List Worker)
      → s.workers ≡ pre ++ working ∷ post
      → u ≡ record s { workers = pre ++ lapsed ∷ post }
      → Turn s u

pub data Step (s u : WorkerPool) : Type 0 where
  thread : Turn s u → Step s u
  -- selector_loop: a client comes, and notify_one wakes a thread that waits,
  notifying :
      (pre post : List Worker)
      → s.workers ≡ pre ++ waiting ∷ post
      → u ≡ record s { workers = pre ++ ready ∷ post; action_count = suc s.action_count }
      → Step s u
  -- or none, when none waits.
  adding :
      ((pre post : List Worker) → s.workers ≡ pre ++ waiting ∷ post → ⊥)
      → u ≡ record s { action_count = suc s.action_count }
      → Step s u
  -- A wait that ends by itself.
  spurious :
      (pre post : List Worker)
      → s.workers ≡ pre ++ waiting ∷ post
      → u ≡ record s { workers = pre ++ ready ∷ post }
      → Step s u
  stopping : u ≡ stop_threads s → Step s u

pub data Reach (s : WorkerPool) : WorkerPool → Type 0 where
  here : Reach s s
  later : {t u : WorkerPool} → Reach s t → Step t u → Reach s u
