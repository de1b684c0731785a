-- ===== src/System/Sanity.antt =====
-- ServerConnector.cpp: the state of the clients in each place, between two steps.
use universal_fencing_hub.Base.{
  ℕ, ◌<◌, ◌≡◌, ◌≢◌, refl, subst, ◌⊎◌, inl, inr, List, [], ◌∷◌, ◌++◌, arith, if◌then◌else◌, ◌==◌,
  one_of_ne, count, true, Bool-cases,
}
use universal_fencing_hub.GenAlloc.Ownership.{make-Owns}
use universal_fencing_hub.GenAlloc.Counting.{pool_size-make}
use universal_fencing_hub.NetClient.{NetClient, Phase, IoOp, put_header}
use universal_fencing_hub.NetClient.Receiving.{HasMessage}
use universal_fencing_hub.NetClient.Sending.{IsSending}
use universal_fencing_hub.Queue.Chain.{empty-IsChain}
use universal_fencing_hub.Connector.{Connector, max_connections}
use universal_fencing_hub.Connector.Serving.{IsReader, IsPending}
use universal_fencing_hub.System.{System, IsStarted}
use universal_fencing_hub.System.Placement.{IsPlaced, count-behind}

-- A client that a reply goes out to: of `message`, the bytes `gone` are out.
pub record IsWriter {B : Type 0} (c : NetClient B) : Type 0 where
  pub phase : c.current_phase ≡ Phase.send
  pub next : (c.next_phase ≡ Phase.recv) ⊎ (c.next_phase ≡ Phase.canceled)
  pub io : c.io_state ≡ IoOp.write
  pub gone : List ℕ
  pub message : List ℕ
  pub sending : IsSending (put_header c) gone message

-- On the com queue a client reads or writes.
abbrev pub Talks : {B : Type 0} → NetClient B → Type 0
Talks c = ((seen : List ℕ) × IsReader c seen) ⊎ IsWriter c

-- On the action queue it has a message.
abbrev pub Waits : {B : Type 0} → NetClient B → Type 0
Waits c = (seen : List ℕ) × IsPending c seen

-- With a worker thread its message is executed.
abbrev pub Works : {B : Type 0} → NetClient B → Type 0
Works c = (c.current_phase ≡ Phase.executing) × ((seen : List ℕ) × HasMessage c seen)

pub record IsSane {B : Type 0} (s : Connector B) (busy used talking waiting lost : List ℕ)
    : Type 0 where
  pub placed :
      IsPlaced s.com_queue s.action_queue s.links s.client_pool busy used talking waiting lost
  pub talks : (b : ℕ) → 0 < count b talking → Talks (s.client b)
  pub waits : (b : ℕ) → 0 < count b waiting → Waits (s.client b)
  pub works : (b : ℕ) → 0 < count b busy → Works (s.client b)

-- A property of the clients of a list stays when one client is replaced: if the new one has it too,
-- and if the one is not on the list.
module _ {B : Type 0} (P : ℕ → NetClient B → Type 0) (f : ℕ → NetClient B) (a : ℕ) (c : NetClient B)
    (xs : List ℕ) where
  is_a : (b : ℕ) → (b == a) ≡ true → a ≡ b
  is_a b same = ground arith

  pub replaced :
      P a c
      → ((b : ℕ) → 0 < count b xs → b ≢ a → P b (f b))
      → (b : ℕ) → 0 < count b xs
      → P b (if b == a then c else f b)
  replaced new old b h = elim (Bool-cases (b == a)) [
    | inl same ↦ rw same (subst (λ t. P t c) (is_a b same) new)
    | inr other ↦ rw other (old b h (λ e. ground arith))
  ]

  pub elsewhere :
      count a xs ≡ 0
      → ((b : ℕ) → 0 < count b xs → P b (f b))
      → (b : ℕ) → 0 < count b xs
      → P b (if b == a then c else f b)
  elsewhere absent old b h = elim (Bool-cases (b == a)) [
    | inl same ↦
        let found = subst (λ t. 0 < count t xs) (ground arith) h in absurd (found_nowhere found)
    | inr other ↦ rw other (old b h)
  ]
    where
      found_nowhere : 0 < count a xs → ⊥
      found_nowhere h = omega arith

pub before_last :
    (b : ℕ) (xs : List ℕ) (a : ℕ) → 0 < count b (xs ++ a ∷ []) → b ≢ a → 0 < count b xs
before_last b xs a h ne = omega (arith, count-behind b xs a, one_of_ne b a ne)

-- The start.
pub started-IsSane :
    {B : Type 0} (s : System B) → IsStarted s → IsSane s.connector s.busy [] [] [] []
started-IsSane s st = record {
  placed =
      rw (st.com_queue, st.action_queue, st.client_pool, st.busy)
        (record {
          com_chain = empty-IsChain s.connector.links;
          action_chain = empty-IsChain s.connector.links;
          loose = λ b h. absurd (omega arith);
          owns = make-Owns max_connections;
          small = omega (arith, pool_size-make max_connections);
          places = λ x. refl;
          total = refl;
        });
  talks = λ b h. absurd (omega arith);
  waits = λ b h. absurd (omega arith);
  works = λ b h. let found = subst (λ t. 0 < count b t) st.busy h in absurd (omega arith);
}
