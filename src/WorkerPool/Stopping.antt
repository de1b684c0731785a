-- ===== src/WorkerPool/Stopping.antt =====
-- WorkerPool.cpp, stop_threads: the threads return, so that await_threads_termination can join them.
use universal_fencing_hub.Base.{
  ℕ, zero, suc, ◌+◌, ◌≤◌, ◌<◌, ◌≡◌, refl, sym, ap, ◌∙◌, subst, ◌⊎◌, inl, inr, Bool, true, false,
  List, [], ◌∷◌, ◌++◌, append_assoc, arith,
}
use universal_fencing_hub.WorkerPool.{
  Worker, ready, working, waiting, ended, lapsed, WorkerPool, notify_all, look, loop_head,
  stop_threads, Turn, turning, returning, lapsing,
}
use universal_fencing_hub.WorkerPool.Waking.{
  awake, asleep, astray, total, replaced, notify_all-asleep,
}

-- A run of turns of the threads, with their number.
pub data Turns (s : WorkerPool) : ℕ → WorkerPool → Type 0 where
  none_yet : Turns s 0 s
  one_more : {k : ℕ} {t u : WorkerPool} → Turns s k t → Turn t u → Turns s (suc k) u

abbrev pub AllEnded : List Worker → Type 0
AllEnded [] = Unit {0}
AllEnded (w ∷ ws) = (w ≡ ended) × AllEnded ws

-- Stopped, and with no thread asleep.
record IsStopping (s : WorkerPool) : Type 0 where
  pub stopped : s.stop_workers ≡ true
  pub none_sleeps : total asleep s.workers ≡ 0

-- The turns that are left.
abbrev left : WorkerPool → ℕ
left s = s.action_count + total awake s.workers

-- What a turn leaves, when the pool is stopped.
loop_head-left :
    (pre post : List Worker) (stop : Bool) (clients : ℕ)
    → stop ≡ true
    → total asleep (pre ++ ready ∷ post) ≡ 0
    → (total asleep (pre ++ (loop_head stop clients).0 ∷ post) ≡ 0)
      × ((loop_head stop clients).1 + total awake (pre ++ (loop_head stop clients).0 ∷ post)
          < clients + total awake (pre ++ ready ∷ post))
unfolding loop_head
loop_head-left pre post true clients e h = (
  omega (arith, h, replaced asleep pre ready ended post),
  omega (arith, replaced awake pre ready ended post),
)
loop_head-left pre post false clients e h = absurd (cc)

look-left :
    (pre post : List Worker) (stop : Bool) (clients : ℕ)
    → stop ≡ true
    → total asleep (pre ++ working ∷ post) ≡ 0
    → (total asleep (pre ++ (look stop clients).0 ∷ post) ≡ 0)
      × ((look stop clients).1 + total awake (pre ++ (look stop clients).0 ∷ post)
          < clients + total awake (pre ++ working ∷ post))
unfolding look
look-left pre post true zero e h = (
  omega (arith, h, replaced asleep pre working ended post),
  omega (arith, replaced awake pre working ended post),
)
look-left pre post true (suc clients) e h = (h, omega arith)
look-left pre post false clients e h = absurd (cc)

turned : (s u : WorkerPool) → Turn s u → IsStopping s → IsStopping u × (left u < left s)
turned s u (turning pre post at e) i =
    subst (λ v. IsStopping v × (left v < left s)) (sym e)
      (let (sleep, less) =
          loop_head-left pre post s.stop_workers s.action_count i.stopped
            (subst (λ ws. total asleep ws ≡ 0) at i.none_sleeps) in
        (
          record { stopped = i.stopped; none_sleeps = sleep },
          omega (arith, less, ap (total awake) at),
        ))
turned s u (returning pre post at e) i =
    subst (λ v. IsStopping v × (left v < left s)) (sym e)
      (let (sleep, less) =
          look-left pre post s.stop_workers s.action_count i.stopped
            (subst (λ ws. total asleep ws ≡ 0) at i.none_sleeps) in
        (
          record { stopped = i.stopped; none_sleeps = sleep },
          omega (arith, less, ap (total awake) at),
        ))
turned s u (lapsing pre post at e) i =
    subst (λ v. IsStopping v × (left v < left s)) (sym e)
      (
        record {
          stopped = i.stopped;
          none_sleeps =
              omega (
                arith,
                i.none_sleeps,
                ap (total asleep) at,
                replaced asleep pre working lapsed post,
              );
        },
        omega (arith, ap (total awake) at, replaced awake pre working lapsed post),
      )

Turns-IsStopping :
    (s : WorkerPool) (k : ℕ) (u : WorkerPool)
    → Turns s k u
    → IsStopping s
    → IsStopping u × (k + left u ≤ left s)
Turns-IsStopping s k u none_yet i = (i, omega arith)
Turns-IsStopping s k u (one_more {k = j} {t = t} before turn) i =
    let (stopping, few) = Turns-IsStopping s j t before i in
    let (still, less) = turned t u turn stopping in (still, omega (arith, few, less))

-- A pool whose threads are not all back has a turn left, unless one has lapsed.
some_left :
    (s : WorkerPool) (pre ws : List Worker)
    → s.workers ≡ pre ++ ws
    → total asleep ws ≡ 0
    → AllEnded ws ⊎ ((u : WorkerPool) × Turn s u) ⊎ (0 < total astray ws)
some_left s pre [] at h = inl tt
some_left s pre (waiting ∷ ws) at h = absurd (omega arith)
some_left s pre (ready ∷ ws) at h = inr (inl (_, turning pre ws at refl))
some_left s pre (working ∷ ws) at h = inr (inl (_, returning pre ws at refl))
some_left s pre (ended ∷ ws) at h =
    elim (some_left s (pre ++ ended ∷ []) ws (at ∙ sym (append_assoc pre (ended ∷ []) ws))
      (omega arith)) [
        | inl all ↦ inl (refl, all)
        | inr (inl turn) ↦ inr (inl turn)
        | inr (inr gone) ↦ inr (inr (omega (arith, gone)))
      ]
some_left s pre (lapsed ∷ ws) at h = inr (inr (omega arith))

-- When stop_threads has run and no more clients come, the threads take no more turns than there are
-- clients on the action queue and threads awake then; and after any run of turns all threads have
-- returned, or one of them has a turn to take, or an exception of process_client_message has sent one back
-- into worker_loop without the lock, which then takes no more turns.
pub stop_threads-ends :
    (s u : WorkerPool) (k : ℕ)
    → Turns (stop_threads s) k u
    → (k ≤ s.action_count + total awake (notify_all s.workers))
      × (AllEnded u.workers ⊎ ((v : WorkerPool) × Turn u v) ⊎ (0 < total astray u.workers))
unfolding stop_threads
stop_threads-ends s u k turns =
    let (stopping, few) =
      Turns-IsStopping (stop_threads s) k u turns
        (record { stopped = refl; none_sleeps = notify_all-asleep s.workers }) in
    (omega (arith, few), some_left u [] u.workers refl stopping.none_sleeps)
