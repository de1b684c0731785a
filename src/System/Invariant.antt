-- ===== src/System/Invariant.antt =====
-- ServerConnector.cpp: every step of a thread, whichever comes next, leaves the server in order.
use mathlib.Core.Option.{some-injective}
use universal_fencing_hub.Base.{
  ℕ, ◌≤◌, ◌≡◌, sym, ◌∙◌, subst, List, [], ◌∷◌, ◌++◌, arith, inl, inr, some, none, length, ◌<◌, ◌⊎◌,
  Bool-cases, ltb, ltb→lt, ge_of_ltb, false, count, count-append, one, eq_of_one, count-take_out,
  one_self,
}
use universal_fencing_hub.CharBuffer.{CharBuffer}
use universal_fencing_hub.Outcome.{ok}
use universal_fencing_hub.NetClient.{NetClient, io_buffer_size}
use universal_fencing_hub.Queue.{Queue, remove_first}
use universal_fencing_hub.Queue.Chain.{IsChain}
use universal_fencing_hub.Queue.Node.{Links, Ptr}
use universal_fencing_hub.Server.{FenceFunctions}
use universal_fencing_hub.Requests.{process_client_message}
use universal_fencing_hub.Requests.Phases.{Handles, IsHandled}
use universal_fencing_hub.Connector.{Connector, Ready, set_client, finish_client, serve_clients}
use universal_fencing_hub.Connector.Shutdown.{remove_first-empty}
use universal_fencing_hub.Connector.Worker.{executing}
use universal_fencing_hub.System.{
  System, Permitted, Step, accepting, polling, taking, finishing, failing, signaling, IsStarted,
  Reach, here, later,
}
use universal_fencing_hub.System.Sanity.{IsSane, started-IsSane}
use universal_fencing_hub.System.Polling.{serve_clients_lem, serve_each-InOrder}
use universal_fencing_hub.System.Entering.{accept_connection-IsSane, take-IsSane}
use universal_fencing_hub.System.Working.{IsClosing, handled, finish_client-IsSane, strand-IsSane}

-- Each client that is out of the pool is in one place, and in the state that this place asks for. A
-- client is lost only for a reason.
pub record IsSound {B : Type 0} (s : System B) (IsLost : ℕ → Type 0) : Type 0 where
  pub used : List ℕ
  pub talking : List ℕ
  pub waiting : List ℕ
  pub lost : List ℕ
  pub sane : IsSane s.connector s.busy used talking waiting lost
  pub reason : (x : ℕ) → 0 < count x lost → IsLost x

-- A client that stands on the com queue.
abbrev pub OnComQueue : {B : Type 0} → Connector B → ℕ → Type 0
OnComQueue s x = (talking : List ℕ) × IsChain s.com_queue s.links talking × (0 < count x talking)

module _ {B : Type 0} ⦃cb : CharBuffer B⦄ (plugin : FenceFunctions) where
  -- Which clients a step loses: when a worker thread closes a connection, those on the com queue, which
  -- the thread's own client is not on; and when an exception ends its loop, its client.
  abbrev pub LostBy : (s u : System B) → Step plugin s u → ℕ → Type 0
  LostBy s u (accepting fd available e) x = ⊥
  LostBy s u (polling rounds ready enough allowed e) x = ⊥
  LostBy s u (taking a queue links taken e) x = ⊥
  LostBy s u (finishing rounds pre a post c busy enough result e) x =
      IsClosing s.connector c × OnComQueue s.connector x
  LostBy s u (failing rounds pre a post c error busy result e) x = x ≡ a
  LostBy s u (signaling e) x = ⊥

  -- Which clients were lost on the way from `s` to `t`.
  abbrev pub LostIn : (s t : System B) → Reach plugin s t → ℕ → Type 0
  LostIn s t here x = ⊥
  LostIn s t (later {t = r} before step) x = LostIn s r before x ⊎ LostBy r t step x

module _ {B : Type 0} ⦃cb : CharBuffer B⦄ (P : ℕ → Type 0) where
  poll-IsSound :
      (s : System B) (rounds : ℕ) (ready : ℕ → Ready)
      → s.connector.client_pool.pool_size ≤ rounds
      → ((a : ℕ) → Permitted (s.connector.client a) (ready a))
      → IsSound s P
      → IsSound
          (record s {
            connector = serve_clients rounds ready s.connector s.connector.com_queue.head_node;
          })
          P
  poll-IsSound s rounds ready enough allowed i =
      let few : length i.talking ≤ rounds =
        omega (arith, enough, i.sane.placed.total, i.sane.placed.owns.counted) in
      let same =
        serve_clients_lem ready rounds s.connector i.talking i.sane (λ b h. allowed b) few in
      let after = serve_each-InOrder ready i.talking s.connector [] i.sane (λ b h. allowed b) in
      record {
        used = after.used;
        talking = after.talking;
        waiting = after.waiting;
        lost = i.lost;
        reason = i.reason;
        sane =
            subst (λ u. IsSane u s.busy after.used after.talking after.waiting i.lost) (sym same)
              after.sane;
      }

  -- What a taken client leaves, for what remove_first returned.
  abbrev Taken : System B → Ptr × Queue × Links → Type 0
  Taken s (none, q, l) = ⊥
  Taken s (some a, q, l) =
      IsSound
        (record {
          connector =
              set_client (record s.connector { action_queue = q; links = l }) a
                (executing (s.connector.client a));
          busy = a ∷ s.busy;
        })
        P

  take-IsSound :
      (s : System B) (a : ℕ) (queue : Queue) (links : Links)
      → remove_first s.connector.action_queue s.connector.links ≡ some (some a, queue, links)
      → IsSound s P
      → Taken s (some a, queue, links)
  take-IsSound s a queue links e i = by_waiting i.waiting i.sane
    where
      by_waiting :
          (waiting : List ℕ)
          → IsSane s.connector s.busy i.used i.talking waiting i.lost
          → Taken s (some a, queue, links)
      by_waiting [] sane =
          let nothing =
            remove_first-empty s.connector.action_queue s.connector.links
              sane.placed.action_chain.head in
          absurd (cc)
      by_waiting (b ∷ rest) sane =
          let (q, l, taken, after) = take-IsSane s.connector b rest sane in
          let same =
            some-injective {A = Ptr × Queue × Links} (some b, q, l) (some a, queue, links)
              (sym taken ∙ e) in
          subst (Taken s) same (record {
            used = i.used;
            talking = i.talking;
            waiting = rest;
            lost = i.lost;
            sane = after;
            reason = i.reason;
          })

  finish-IsSound :
      (plugin : FenceFunctions) (s : System B) (rounds : ℕ) (pre : List ℕ) (a : ℕ) (post : List ℕ)
      (c : NetClient B)
      → s.busy ≡ pre ++ a ∷ post
      → io_buffer_size ≤ rounds
      → process_client_message rounds plugin (s.connector.client a) ≡ some (ok c tt)
      → IsSound s P
      → IsSound
          (record { connector = finish_client (set_client s.connector a c) a; busy = pre ++ post })
          (λ x. P x ⊎ IsClosing s.connector c × OnComQueue s.connector x)
  finish-IsSound plugin s rounds pre a post c e enough result i =
      let sane = subst (λ t. IsSane s.connector t i.used i.talking i.waiting i.lost) e i.sane in
      let done : IsHandled c = subst (Handles (s.connector.client a)) result (
        handled rounds plugin (s.connector.client a)
          (sane.works a (omega (arith, count-take_out a pre a post, one_self a))) enough) in
      elim (finish_client-IsSane s.connector pre a post c sane done) [
        | inl (answered, after) ↦ record {
          used = _;
          talking = _;
          waiting = _;
          lost = i.lost;
          sane = after;
          reason = λ x h. inl (i.reason x h);
        }
        | inr (closing, (used', after)) ↦ record {
          used = _;
          talking = _;
          waiting = _;
          lost = i.talking ++ i.lost;
          sane = after;
          reason = λ x h. elim (Bool-cases (ltb 0 (count x i.lost))) [
            | inl before ↦ inl (i.reason x (ltb→lt 0 (count x i.lost) before))
            | inr now ↦
                let some_talk : 0 < count x i.talking = on_queue x now h in
                inr (closing, (i.talking, i.sane.placed.com_chain, some_talk))
          ];
        }
      ]
    where
      on_queue :
          (x : ℕ)
          → ltb 0 (count x i.lost) ≡ false
          → 0 < count x (i.talking ++ i.lost)
          → 0 < count x i.talking
      on_queue x now h =
          omega (arith, h, count-append x i.talking i.lost, ge_of_ltb 0 (count x i.lost) now)

kept :
    {B : Type 0} (P : ℕ → Type 0) {v : System B} (s u : System B)
    → v ≡ u
    → IsSound v P
    → IsSound u (λ x. P x ⊎ ⊥)
kept P s u e i =
    subst (λ w. IsSound w (λ x. P x ⊎ ⊥)) e
      (record {
        used = i.used;
        talking = i.talking;
        waiting = i.waiting;
        lost = i.lost;
        sane = i.sane;
        reason = λ x h. inl (i.reason x h);
      })

module _ {B : Type 0} ⦃cb : CharBuffer B⦄ (plugin : FenceFunctions) where
  -- Whatever thread comes next.
  pub Step-IsSound :
      (P : ℕ → Type 0) (s u : System B) (step : Step plugin s u)
      → IsSound s P
      → IsSound u (λ x. P x ⊎ LostBy plugin s u step x)
  Step-IsSound P s u (accepting fd available e) i =
      let (a, after) = accept_connection-IsSane s.connector fd i.sane available in
      kept P s u (sym e)
        (record { used = _; talking = _; waiting = _; lost = _; sane = after; reason = i.reason })
  Step-IsSound P s u (polling rounds ready enough allowed e) i =
      kept P s u (sym e) (poll-IsSound P s rounds ready enough allowed i)
  Step-IsSound P s u (taking a queue links taken e) i =
      kept P s u (sym e) (take-IsSound P s a queue links taken i)
  Step-IsSound P s u (finishing rounds pre a post c busy enough result e) i =
      subst (λ v. IsSound v (λ x. P x ⊎ IsClosing s.connector c × OnComQueue s.connector x)) (sym e)
        (finish-IsSound P plugin s rounds pre a post c busy enough result i)
  Step-IsSound P s u (failing rounds pre a post c error busy result e) i =
      subst (λ v. IsSound v (λ x. P x ⊎ (x ≡ a))) (sym e)
        (record {
          used = _;
          talking = _;
          waiting = _;
          lost = a ∷ i.lost;
          sane =
              strand-IsSane s.connector pre a post c
                (subst (λ t. IsSane s.connector t i.used i.talking i.waiting i.lost) busy i.sane);
          reason = λ x h. elim (Bool-cases (ltb 0 (count x i.lost))) [
            | inl before ↦ inl (i.reason x (ltb→lt 0 (count x i.lost) before))
            | inr now ↦ inr (sym (eq_of_one x a (first x now h)))
          ];
        })
    where
      first : (x : ℕ) → ltb 0 (count x i.lost) ≡ false → 0 < count x (a ∷ i.lost) → 0 < one x a
      first x now h = ground arith
  Step-IsSound P s u (signaling e) i = kept P s u (sym e) (record {
    used = i.used;
    talking = i.talking;
    waiting = i.waiting;
    lost = i.lost;
    reason = i.reason;
    sane = record {
      placed = i.sane.placed;
      talks = i.sane.talks;
      waits = i.sane.waits;
      works = i.sane.works;
    };
  })

  -- From the state that the constructor leaves, whatever the threads do in whatever order: every client
  -- that is out of the pool is in one place only, on one of the queues, with a worker thread, or lost;
  -- the two queues are in order, and each client that is not lost is in the state that its place asks
  -- for. A client is lost only if an exception ended the loop of the worker thread that had it, or if it
  -- stood on the com queue when a worker thread closed the connection of another client, because that one
  -- had no reply or the server stops.
  pub Reach-IsSound :
      (s t : System B)
      → IsStarted s
      → (reached : Reach plugin s t) → IsSound t (LostIn plugin s t reached)
  Reach-IsSound s t st here = record {
    used = [];
    talking = [];
    waiting = [];
    lost = [];
    sane = started-IsSane s st;
    reason = λ x h. absurd (omega arith);
  }
  Reach-IsSound s t st (later {t = r} before step) =
      Step-IsSound (LostIn plugin s r before) r t step (Reach-IsSound s r st before)
