-- ===== src/WorkerPool/Waking.antt =====
-- WorkerPool.cpp: how many threads are awake, wait, and lack the lock, in every state of the pool.
use universal_fencing_hub.Base.{
  ℕ, zero, suc, ◌+◌, ◌<◌, ◌≡◌, refl, sym, ap, subst, ◌⊎◌, inl, inr, Bool, true, false, List, [],
  ◌∷◌, ◌++◌, none, arith, replicate,
}
use universal_fencing_hub.WorkerPool.{
  Worker, ready, working, waiting, ended, lapsed, WorkerPool, wake, notify_all, look, loop_head,
  start, stop_threads, Turn, Step, thread, turning, returning, lapsing, notifying, adding, spurious,
  stopping, Reach, here, later,
}

-- How many threads wait for the lock or work, and how many wait on the condition variable.
abbrev pub awake : Worker → ℕ
awake ready = 1
awake working = 1
awake waiting = 0
awake ended = 0
awake lapsed = 0

abbrev pub asleep : Worker → ℕ
asleep ready = 0
asleep working = 0
asleep waiting = 1
asleep ended = 0
asleep lapsed = 0

-- How many came back into worker_loop without the lock.
abbrev pub astray : Worker → ℕ
astray ready = 0
astray working = 0
astray waiting = 0
astray ended = 0
astray lapsed = 1

abbrev pub total : (Worker → ℕ) → List Worker → ℕ
total f [] = 0
total f (w ∷ ws) = f w + total f ws

pub total-append :
    (f : Worker → ℕ) (ws vs : List Worker) → total f (ws ++ vs) ≡ total f ws + total f vs
total-append f [] vs = omega arith
total-append f (w ∷ ws) vs = omega (arith, total-append f ws vs)

-- A thread replaced.
pub replaced :
    (f : Worker → ℕ) (pre : List Worker) (v w : Worker) (post : List Worker)
    → total f (pre ++ w ∷ post) + f v ≡ total f (pre ++ v ∷ post) + f w
replaced f pre v w post =
    omega (arith, total-append f pre (v ∷ post), total-append f pre (w ∷ post))

pub notify_all-asleep : (ws : List Worker) → total asleep (notify_all ws) ≡ 0
unfolding notify_all wake
notify_all-asleep [] = refl
notify_all-asleep (ready ∷ ws) = omega (arith, notify_all-asleep ws)
notify_all-asleep (working ∷ ws) = omega (arith, notify_all-asleep ws)
notify_all-asleep (waiting ∷ ws) = omega (arith, notify_all-asleep ws)
notify_all-asleep (ended ∷ ws) = omega (arith, notify_all-asleep ws)
notify_all-asleep (lapsed ∷ ws) = omega (arith, notify_all-asleep ws)

notify_all-astray : (ws : List Worker) → total astray (notify_all ws) ≡ total astray ws
unfolding notify_all wake
notify_all-astray [] = refl
notify_all-astray (ready ∷ ws) = omega (arith, notify_all-astray ws)
notify_all-astray (working ∷ ws) = omega (arith, notify_all-astray ws)
notify_all-astray (waiting ∷ ws) = omega (arith, notify_all-astray ws)
notify_all-astray (ended ∷ ws) = omega (arith, notify_all-astray ws)
notify_all-astray (lapsed ∷ ws) = omega (arith, notify_all-astray ws)

-- Where one sleeps.
asleep_at :
    (ws : List Worker)
    → 0 < total asleep ws
    → (pre post : List Worker) × (ws ≡ pre ++ waiting ∷ post)
asleep_at [] h = absurd (omega arith)
asleep_at (waiting ∷ ws) h = ([], ws, refl)
asleep_at (ready ∷ ws) h =
    let (pre, post, e) = asleep_at ws (omega arith) in (ready ∷ pre, post, ap (λ t. ready ∷ t) e)
asleep_at (working ∷ ws) h =
    let (pre, post, e) = asleep_at ws (omega arith) in
    (working ∷ pre, post, ap (λ t. working ∷ t) e)
asleep_at (ended ∷ ws) h =
    let (pre, post, e) = asleep_at ws (omega arith) in (ended ∷ pre, post, ap (λ t. ended ∷ t) e)
asleep_at (lapsed ∷ ws) h =
    let (pre, post, e) = asleep_at ws (omega arith) in (lapsed ∷ pre, post, ap (λ t. lapsed ∷ t) e)

-- After the stop no thread sleeps. Before it, all threads sleep or are awake, and one is awake while a
-- client waits.
abbrev pub IsAwake : Bool → List Worker → ℕ → ℕ → Type 0
IsAwake true ws n clients = total asleep ws ≡ 0
IsAwake false ws n clients =
    (total awake ws + total asleep ws ≡ n) × ((clients ≡ 0) ⊎ (0 < total awake ws))

abbrev pub IsRunning : WorkerPool → ℕ → Type 0
IsRunning s n = IsAwake s.stop_workers s.workers n s.action_count

look-IsAwake :
    (stop : Bool) (pre post : List Worker) (n clients : ℕ)
    → IsAwake stop (pre ++ working ∷ post) n clients
    → IsAwake stop (pre ++ (look stop clients).0 ∷ post) n (look stop clients).1
unfolding look
look-IsAwake true pre post n zero h = omega (arith, h, replaced asleep pre working ended post)
look-IsAwake true pre post n (suc clients) h = h
look-IsAwake false pre post n zero h = (
  omega (
    arith,
    h.0,
    replaced asleep pre working waiting post,
    replaced awake pre working waiting post,
  ),
  inl refl,
)
look-IsAwake false pre post n (suc clients) h =
    (h.0, inr (omega (arith, total-append awake pre (working ∷ post))))

-- At the head of the loop a thread that is ready counts as one that works.
ready-IsAwake :
    (stop : Bool) (pre post : List Worker) (n clients : ℕ)
    → IsAwake stop (pre ++ ready ∷ post) n clients
    → IsAwake stop (pre ++ working ∷ post) n clients
ready-IsAwake true pre post n clients h = omega (arith, h, replaced asleep pre ready working post)
ready-IsAwake false pre post n clients h = (
  omega (arith, h.0, replaced asleep pre ready working post, replaced awake pre ready working post),
  inr (omega (arith, total-append awake pre (working ∷ post))),
)

loop_head-IsAwake :
    (stop : Bool) (pre post : List Worker) (n clients : ℕ)
    → IsAwake stop (pre ++ ready ∷ post) n clients
    → IsAwake stop (pre ++ (loop_head stop clients).0 ∷ post) n (loop_head stop clients).1
unfolding loop_head
loop_head-IsAwake true pre post n clients h = omega (arith, h, replaced asleep pre ready ended post)
loop_head-IsAwake false pre post n clients h =
    look-IsAwake false pre post n clients (ready-IsAwake false pre post n clients h)

woken-IsAwake :
    (stop : Bool) (pre post : List Worker) (n clients more : ℕ)
    → IsAwake stop (pre ++ waiting ∷ post) n clients
    → IsAwake stop (pre ++ ready ∷ post) n more
woken-IsAwake true pre post n clients more h =
    absurd (omega (arith, h, total-append asleep pre (waiting ∷ post)))
woken-IsAwake false pre post n clients more h = (
  omega (arith, h.0, replaced asleep pre waiting ready post, replaced awake pre waiting ready post),
  inr (omega (arith, total-append awake pre (ready ∷ post))),
)

added-IsAwake :
    (stop : Bool) (ws : List Worker) (n clients : ℕ)
    → 0 < n
    → total asleep ws ≡ 0
    → IsAwake stop ws n clients
    → IsAwake stop ws n (suc clients)
added-IsAwake true ws n clients some_threads none_sleeps h = h
added-IsAwake false ws n clients some_threads none_sleeps h =
    (h.0, inr (omega (arith, h.0, none_sleeps, some_threads)))

none_asleep :
    (ws : List Worker)
    → ((pre post : List Worker) → ws ≡ pre ++ waiting ∷ post → ⊥)
    → total asleep ws ≡ 0
none_asleep ws h = by_count (total asleep ws) refl
  where
    by_count : (k : ℕ) → total asleep ws ≡ k → total asleep ws ≡ 0
    by_count zero e = e
    by_count (suc k) e = let (pre, post, at) = asleep_at ws (omega arith) in absurd (h pre post at)

-- A thread has lapsed, or the pool runs.
abbrev pub Runs : WorkerPool → ℕ → Type 0
Runs s n = (0 < total astray s.workers) ⊎ IsRunning s n

-- A thread that has lapsed stays so.
kept_at :
    (v w : Worker) (pre post ws : List Worker)
    → ws ≡ pre ++ v ∷ post
    → astray v ≡ 0
    → 0 < total astray ws
    → 0 < total astray (pre ++ w ∷ post)
kept_at v w pre post ws at quiet h =
    omega (arith, h, quiet, ap (total astray) at, replaced astray pre v w post)

Step-astray :
    (s u : WorkerPool) → Step s u → 0 < total astray s.workers → 0 < total astray u.workers
unfolding stop_threads
Step-astray s u (thread (turning pre post at e)) h =
    subst (λ v. 0 < total astray v.workers) (sym e) (kept_at ready _ pre post s.workers at refl h)
Step-astray s u (thread (returning pre post at e)) h =
    subst (λ v. 0 < total astray v.workers) (sym e) (kept_at working _ pre post s.workers at refl h)
Step-astray s u (thread (lapsing pre post at e)) h =
    subst (λ v. 0 < total astray v.workers) (sym e) (kept_at working _ pre post s.workers at refl h)
Step-astray s u (notifying pre post at e) h =
    subst (λ v. 0 < total astray v.workers) (sym e) (kept_at waiting _ pre post s.workers at refl h)
Step-astray s u (adding none_waits e) h = subst (λ v. 0 < total astray v.workers) (sym e) h
Step-astray s u (spurious pre post at e) h =
    subst (λ v. 0 < total astray v.workers) (sym e) (kept_at waiting _ pre post s.workers at refl h)
Step-astray s u (stopping e) h =
    subst (λ v. 0 < total astray v.workers) (sym e) (omega (arith, h, notify_all-astray s.workers))

Turn-Runs : (s u : WorkerPool) (n : ℕ) → Turn s u → IsRunning s n → Runs u n
Turn-Runs s u n (turning pre post at e) h = inr (
    subst (λ v. IsRunning v n) (sym e)
      (loop_head-IsAwake s.stop_workers pre post n s.action_count
        (subst (λ ws. IsAwake s.stop_workers ws n s.action_count) at h)))
Turn-Runs s u n (returning pre post at e) h = inr (
    subst (λ v. IsRunning v n) (sym e)
      (look-IsAwake s.stop_workers pre post n s.action_count
        (subst (λ ws. IsAwake s.stop_workers ws n s.action_count) at h)))
Turn-Runs s u n (lapsing pre post at e) h = inl (
    subst (λ v. 0 < total astray v.workers) (sym e)
      (omega (arith, total-append astray pre (lapsed ∷ post))))

Step-IsRunning : (s u : WorkerPool) (n : ℕ) → 0 < n → Step s u → IsRunning s n → Runs u n
unfolding stop_threads
Step-IsRunning s u n some_threads (thread t) h = Turn-Runs s u n t h
Step-IsRunning s u n some_threads (notifying pre post at e) h = inr (
    subst (λ v. IsRunning v n) (sym e)
      (woken-IsAwake s.stop_workers pre post n s.action_count (suc s.action_count)
        (subst (λ ws. IsAwake s.stop_workers ws n s.action_count) at h)))
Step-IsRunning s u n some_threads (adding none_waits e) h = inr (
    subst (λ v. IsRunning v n) (sym e)
      (added-IsAwake s.stop_workers s.workers n s.action_count some_threads
        (none_asleep s.workers none_waits) h))
Step-IsRunning s u n some_threads (spurious pre post at e) h = inr (
    subst (λ v. IsRunning v n) (sym e)
      (woken-IsAwake s.stop_workers pre post n s.action_count s.action_count
        (subst (λ ws. IsAwake s.stop_workers ws n s.action_count) at h)))
Step-IsRunning s u n some_threads (stopping e) h =
    inr (subst (λ v. IsRunning v n) (sym e) (notify_all-asleep s.workers))

ready-awake : (n : ℕ) → total awake (replicate n ready) ≡ n
ready-awake zero = refl
ready-awake (suc n) = omega (arith, ready-awake n)

ready-asleep : (n : ℕ) → total asleep (replicate n ready) ≡ 0
ready-asleep zero = refl
ready-asleep (suc n) = omega (arith, ready-asleep n)

-- A pool of one thread or more, all of which were started: whatever the threads and the selector do, in
-- whatever order, either an exception of process_client_message has sent a thread back into worker_loop
-- without the lock, and nothing is said from then on; or each thread is awake or asleep and one is awake
-- while a client waits on the action queue, until the pool is stopped, and none sleeps after that.
pub Reach-Runs : (n : ℕ) (t : WorkerPool) → 0 < n → Reach (start n none) t → Runs t n
unfolding start
Reach-Runs n t some_threads here = inr (omega (arith, ready-awake n, ready-asleep n), inl refl)
Reach-Runs n t some_threads (later {t = r} before step) =
    elim (Reach-Runs n r some_threads before) [
      | inl gone ↦ inl (Step-astray r t step gone)
      | inr running ↦ Step-IsRunning r t n some_threads step running
    ]
