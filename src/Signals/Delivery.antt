-- ===== src/Signals/Delivery.antt =====
-- SignalHandler.cpp: a signal is not lost.
use universal_fencing_hub.Base.{
  ℕ, ◌≡◌, refl, sym, ap, ◌∙◌, true, List, [], ◌∷◌, ◌++◌, Option, none, some,
}
use universal_fencing_hub.Signals.{
  SignalHandler, WriteResult, wrote, interrupted, refused, signal, is_signaled, enable_wakeup_fd,
  disable_wakeup_fd, write_trigger, ufh_signal_handler,
}

-- What other threads do with the handler, in any order.
pub data Call : Type 0 where
  signals disables : Call
  enables : ℕ → Call
  catches : List WriteResult → Call

unfoldable pub call : SignalHandler → Call → Option SignalHandler
unfolding signal enable_wakeup_fd disable_wakeup_fd ufh_signal_handler
call s signals = some (signal s)
call s disables = some (disable_wakeup_fd s)
call s (enables fd) = some (enable_wakeup_fd s fd)
call s (catches writes) = ufh_signal_handler s writes

abbrev pub calls_of : SignalHandler → List Call → Option SignalHandler
calls_of s [] = some s
calls_of s (c ∷ cs) = elim (call s c) [ none ↦ none | some t ↦ calls_of t cs ]

-- Whether a call is a stop signal, from another thread or from the system.
abbrev pub Stops : Call → Type 0
Stops signals = Unit {0}
Stops disables = ⊥
Stops (enables fd) = ⊥
Stops (catches writes) = Unit {0}

write_trigger-flag :
    (s t : SignalHandler) (fd : ℕ) (writes : List WriteResult)
    → write_trigger s fd writes ≡ some t
    → t.signal_flag ≡ s.signal_flag
unfolding write_trigger
write_trigger-flag s t fd [] h = absurd (cc)
write_trigger-flag s t fd (wrote ∷ writes) h = flag h
  where
    flag : some (record s { written = fd ∷ s.written }) ≡ some t → t.signal_flag ≡ s.signal_flag
    flag h = sym (ap (λ o. elim o [ none ↦ true | some u ↦ u.signal_flag ]) h)
write_trigger-flag s t fd (interrupted ∷ writes) h = write_trigger-flag s t fd writes h
write_trigger-flag s t fd (refused ∷ writes) h =
    sym (ap (λ (o : Option SignalHandler). elim o [ none ↦ true | some u ↦ u.signal_flag ]) h)

value_flag : (s t : SignalHandler) → some s ≡ some t → s.signal_flag ≡ true → t.signal_flag ≡ true
value_flag s t h flag =
    sym (ap (λ (o : Option SignalHandler). elim o [ none ↦ true | some u ↦ u.signal_flag ]) h)
    ∙ flag

caught :
    (s t : SignalHandler) (writes : List WriteResult)
    → ufh_signal_handler s writes ≡ some t
    → t.signal_flag ≡ true
unfolding ufh_signal_handler
caught s t writes = by_fd s.wakeup_fd
  where
    by_fd :
        (fd : Option ℕ)
        → elim fd [
          | none ↦ some (record s { signal_flag = true })
          | some d ↦ write_trigger (record s { signal_flag = true }) d writes
        ]
          ≡ some t
        → t.signal_flag ≡ true
    by_fd none h = value_flag (record s { signal_flag = true }) t h refl
    by_fd (some d) h = write_trigger-flag (record s { signal_flag = true }) t d writes h

-- No call takes a signal back,
call-kept :
    (s t : SignalHandler) (c : Call)
    → call s c ≡ some t
    → s.signal_flag ≡ true
    → t.signal_flag ≡ true
unfolding call disable_wakeup_fd enable_wakeup_fd signal
call-kept s t signals h flag = value_flag (signal s) t h refl
call-kept s t disables h flag = value_flag (disable_wakeup_fd s) t h flag
call-kept s t (enables fd) h flag = value_flag (enable_wakeup_fd s fd) t h flag
call-kept s t (catches writes) h flag = caught s t writes h

-- and a stop signal sets it.
call-sets : (s t : SignalHandler) (c : Call) → Stops c → call s c ≡ some t → t.signal_flag ≡ true
unfolding call signal
call-sets s t signals stops h = value_flag (signal s) t h refl
call-sets s t (catches writes) stops h = caught s t writes h
call-sets s t disables stops h = absurd stops
call-sets s t (enables fd) stops h = absurd stops

-- The first call of several, and the others.
first_call :
    (s t : SignalHandler) (c : Call) (cs : List Call)
    → calls_of s (c ∷ cs) ≡ some t
    → (u : SignalHandler) × (call s c ≡ some u) × (calls_of u cs ≡ some t)
first_call s t c cs = by_result (call s c) refl
  where
    by_result :
        (r : Option SignalHandler)
        → call s c ≡ r
        → elim r [ none ↦ none | some u ↦ calls_of u cs ] ≡ some t
        → (u : SignalHandler) × (call s c ≡ some u) × (calls_of u cs ≡ some t)
    by_result none e h = absurd (cc)
    by_result (some u) e h = (u, e, h)

all_kept :
    (cs : List Call) (s t : SignalHandler)
    → calls_of s cs ≡ some t
    → s.signal_flag ≡ true
    → t.signal_flag ≡ true
all_kept [] s t h flag = value_flag s t h flag
all_kept (c ∷ cs) s t h flag =
    let (u, now, others) = first_call s t c cs h in
    all_kept cs u t others (call-kept s u c now flag)

-- Once a stop signal came, by a call of signal or from the system, is_signaled returns true, whatever
-- signals, and changes of the wakeup descriptor, came before it and come after it.
pub is_signaled_lem :
    (before : List Call) (c : Call) (after : List Call) (s t : SignalHandler)
    → Stops c
    → calls_of s (before ++ c ∷ after) ≡ some t
    → is_signaled t ≡ true
unfolding is_signaled
is_signaled_lem [] c after s t stops h =
    let (u, now, others) = first_call s t c after h in
    all_kept after u t others (call-sets s u c stops now)
is_signaled_lem (b ∷ before) c after s t stops h =
    let (u, now, others) = first_call s t b (before ++ c ∷ after) h in
    is_signaled_lem before c after u t stops others
