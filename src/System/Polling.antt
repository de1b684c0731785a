-- ===== src/System/Polling.antt =====
-- ServerConnector.cpp, selector_loop: the loop over the clients of the com queue, which clients leave
-- while it runs.
use universal_fencing_hub.Base.{
  ℕ, zero, suc, ◌≤◌, ◌<◌, ◌≡◌, ◌≢◌, refl, sym, ap, ◌∙◌, subst, List, [], ◌∷◌, ◌++◌, arith, inl, inr,
  length, none, append_assoc, count, one_self, count-append,
}
use universal_fencing_hub.CharBuffer.{CharBuffer}
use universal_fencing_hub.Queue.Segment.{first}
use universal_fencing_hub.Queue.Chain.{IsChain-Between}
use universal_fencing_hub.Connector.{Connector, Ready, serve_client, serve_clients}
use universal_fencing_hub.System.{Permitted}
use universal_fencing_hub.System.Placement.{once, bounded_by}
use universal_fencing_hub.System.Sanity.{IsSane}
use universal_fencing_hub.System.Serving.{serve_client-IsServed}

-- The server is in order, whichever clients stand where.
pub record InOrder {B : Type 0} (s : Connector B) (busy lost : List ℕ) : Type 0 where
  pub used : List ℕ
  pub talking : List ℕ
  pub waiting : List ℕ
  pub sane : IsSane s busy used talking waiting lost

module _ {B : Type 0} ⦃cb : CharBuffer B⦄ (ready : ℕ → Ready) where
  -- Each client of a list is served, in its order.
  abbrev pub serve_each : Connector B → List ℕ → Connector B
  serve_each s [] = s
  serve_each s (a ∷ rest) = serve_each (serve_client s a (ready a)) rest

  abbrev pub AllPermitted : Connector B → List ℕ → Type 0
  AllPermitted s rest = (b : ℕ) → 0 < count b rest → Permitted (s.client b) (ready b)

  -- A turn of the loop: the client read as the next one is the next of the list, those behind
  -- it still stand on the queue, and what select said of them still holds.
  record IsTurned (s : Connector B) (a : ℕ) (busy rest lost : List ℕ) : Type 0 where
    pub next : s.links.next_node a ≡ first rest none
    pub used : List ℕ
    pub front : List ℕ
    pub waiting : List ℕ
    pub sane : IsSane (serve_client s a (ready a)) busy used (front ++ rest) waiting lost
    pub allowed : AllPermitted (serve_client s a (ready a)) rest

  turn :
      {busy used waiting lost : List ℕ} (s : Connector B) (front : List ℕ) (a : ℕ) (rest : List ℕ)
      → IsSane s busy used (front ++ a ∷ rest) waiting lost
      → AllPermitted s (a ∷ rest)
      → IsTurned s a busy rest lost
  turn {busy} {used} {waiting} {lost} s front a rest sane allowed =
      let served =
        serve_client-IsServed s front a rest sane (ready a)
          (allowed a (omega (arith, one_self a))) in
      let link =
        (IsChain-Between s.com_queue s.links front a rest sane.placed.com_chain
          (omega (arith, bounded_by sane.placed))).next in
      let permitted : AllPermitted (serve_client s a (ready a)) rest = λ b h.
        subst (λ c. Permitted c (ready b)) (sym (served.others b (different b h)))
          (allowed b (omega arith)) in
      elim served.sane [
        | inl stays ↦ record {
          next = link;
          used = served.used;
          front = front ++ a ∷ [];
          waiting = served.waiting;
          sane =
              subst
                (λ t. IsSane (serve_client s a (ready a)) busy served.used t served.waiting lost)
                (sym (append_assoc front (a ∷ []) rest)) stays;
          allowed = permitted;
        }
        | inr leaves ↦ record {
          next = link;
          used = served.used;
          front = front;
          waiting = served.waiting;
          sane = leaves;
          allowed = permitted;
        }
      ]
    where
      different : (b : ℕ) → 0 < count b rest → b ≢ a
      different b h same = let found = subst (λ t. 0 < count t rest) same h in absurd (twice found)
        where
          twice : 0 < count a rest → ⊥
          twice h = omega (arith, once sane.placed a, count-append a front (a ∷ rest), one_self a)

  serve_clients-end : (rounds : ℕ) (s : Connector B) → serve_clients rounds ready s none ≡ s
  unfolding serve_clients
  serve_clients-end zero s = refl
  serve_clients-end (suc rounds) s = refl

  loop :
      (rest : List ℕ) (rounds : ℕ) {busy used waiting lost : List ℕ} (s : Connector B)
      (front : List ℕ)
      → IsSane s busy used (front ++ rest) waiting lost
      → AllPermitted s rest
      → length rest ≤ rounds
      → serve_clients rounds ready s (first rest none) ≡ serve_each s rest
  unfolding serve_clients
  loop [] rounds s front sane allowed enough = serve_clients-end rounds s
  loop (a ∷ rest) zero s front sane allowed enough = absurd (omega arith)
  loop (a ∷ rest) (suc rounds) s front sane allowed enough =
      let t = turn s front a rest sane allowed in
      ap (serve_clients rounds ready (serve_client s a (ready a))) t.next
      ∙ loop rest rounds (serve_client s a (ready a)) t.front t.sane t.allowed (omega arith)

  pub serve_each-InOrder :
      (rest : List ℕ) {busy used waiting lost : List ℕ} (s : Connector B) (front : List ℕ)
      → IsSane s busy used (front ++ rest) waiting lost
      → AllPermitted s rest
      → InOrder (serve_each s rest) busy lost
  serve_each-InOrder [] s front sane allowed = record {
    used = _;
    talking = _;
    waiting = _;
    sane = sane;
  }
  serve_each-InOrder (a ∷ rest) s front sane allowed =
      let t = turn s front a rest sane allowed in
      serve_each-InOrder rest (serve_client s a (ready a)) t.front t.sane t.allowed

  -- When the server is in order, what select reports of the clients on the com queue is permitted, and
  -- there is a round for each of them: the loop, which follows the links while it takes clients off the
  -- queue, serves each client that stood there at its start, once, in their order, and no other.
  pub serve_clients_lem :
      {busy used waiting lost : List ℕ} (rounds : ℕ) (s : Connector B) (talking : List ℕ)
      → IsSane s busy used talking waiting lost
      → AllPermitted s talking
      → length talking ≤ rounds
      → serve_clients rounds ready s s.com_queue.head_node ≡ serve_each s talking
  serve_clients_lem rounds s talking sane allowed enough =
      ap (serve_clients rounds ready s) sane.placed.com_chain.head
      ∙ loop talking rounds s [] sane allowed enough
