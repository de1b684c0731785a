-- ===== src/System/Entering.antt =====
-- ServerConnector.cpp: a client comes in from the pool, and a worker thread takes one off the action
-- queue.
use universal_fencing_hub.Base.{
  ℕ, ◌+◌, ◌≤◌, ◌≡◌, refl, List, [], ◌∷◌, ◌++◌, arith, inl, inr, some, one_self, one_of_ne, count,
  count-append,
}
use universal_fencing_hub.CharBuffer.{CharBuffer}
use universal_fencing_hub.GenAlloc.{GenAlloc, get_free_count, allocate}
use universal_fencing_hub.GenAlloc.Ownership.{Owns, allocate-Owns}
use universal_fencing_hub.NetClient.{Fd}
use universal_fencing_hub.Queue.{Queue, remove_first}
use universal_fencing_hub.Queue.Node.{Links}
use universal_fencing_hub.Connector.{Connector, set_client, accept_connection, accepted}
use universal_fencing_hub.Connector.Accepting.{accepted-IsReceiving}
use universal_fencing_hub.Connector.Worker.{executing}
use universal_fencing_hub.System.Placement.{once, accept-IsPlaced, take-IsPlaced}
use universal_fencing_hub.System.Sanity.{
  IsSane, Talks, Waits, Works, replaced, elsewhere, before_last,
}

module _ {B : Type 0} ⦃cb : CharBuffer B⦄ where
  accepted-Talks : (s : Connector B) (a : ℕ) (fd : Fd) → Talks (accepted s a fd)
  unfolding accepted
  accepted-Talks s a fd =
      inl (
        [],
        record { phase = refl; next = refl; io = refl; receiving = accepted-IsReceiving s a fd },
      )

  accept_at :
      {busy used talking waiting lost : List ℕ} (s : Connector B) (fd : Fd) (a : ℕ)
      (pool : GenAlloc)
      → IsSane s busy used talking waiting lost
      → allocate s.client_pool ≡ some (a, pool)
      → Owns pool (a ∷ used)
      → IsSane (accept_connection s fd) busy (a ∷ used) (talking ++ a ∷ []) waiting lost
  unfolding accept_connection
  accept_at {busy} {used} {talking} {waiting} {lost} s fd a pool sane e owns =
      let placed = accept-IsPlaced a pool sane.placed e owns in
      let alone : count a waiting + count a busy ≡ 0 =
        omega (arith, once placed a, count-append a talking (a ∷ []), one_self a) in
      rw (e, accept_connection)
        (record {
          placed = placed;
          talks =
              replaced (λ b d. Talks d) s.client a (accepted s a fd) (talking ++ a ∷ [])
                (accepted-Talks s a fd) (λ b h ne. sane.talks b (before_last b talking a h ne));
          waits = elsewhere (λ b d. Waits d) s.client a _ waiting (omega (arith, alone)) sane.waits;
          works = elsewhere (λ b d. Works d) s.client a _ busy (omega (arith, alone)) sane.works;
        })

  -- While the pool has a free client, accept_connection always sets one up: its bad_alloc branch is
  -- not taken.
  pub accept_connection-IsSane :
      {busy used talking waiting lost : List ℕ} (s : Connector B) (fd : Fd)
      → IsSane s busy used talking waiting lost
      → 1 ≤ get_free_count s.client_pool
      → (a : ℕ) × IsSane (accept_connection s fd) busy (a ∷ used) (talking ++ a ∷ []) waiting lost
  unfolding get_free_count
  accept_connection-IsSane {used = used} s fd sane available =
      elim (allocate-Owns s.client_pool used sane.placed.owns) [
        | inl (refused, full) ↦ absurd (omega (arith, full, sane.placed.owns.counted))
        | inr (a, pool, e, owns) ↦ (a, accept_at s fd a pool sane e owns)
      ]

  pub take-IsSane :
      {busy used talking lost : List ℕ} (s : Connector B) (a : ℕ) (rest : List ℕ)
      → IsSane s busy used talking (a ∷ rest) lost
      → (q : Queue) × (l : Links) × (remove_first s.action_queue s.links ≡ some (some a, q, l))
        × IsSane
            (set_client (record s { action_queue = q; links = l }) a (executing (s.client a)))
            (a ∷ busy)
            used
            talking
            rest
            lost
  take-IsSane {busy} {used} {talking} s a rest sane =
      let (q, taken, placed) = take-IsPlaced a rest sane.placed in
      let alone : count a talking + (count a rest + count a busy) ≡ 0 =
        omega (arith, once placed a, one_self a) in
      let (seen, pending) = sane.waits a (omega (arith, one_self a)) in
      (
        q,
        _,
        taken,
        record {
          placed = placed;
          talks = elsewhere (λ b d. Talks d) s.client a _ talking (omega (arith, alone)) sane.talks;
          waits =
              elsewhere (λ b d. Waits d) s.client a _ rest (omega (arith, alone))
                (λ b h. sane.waits b (omega (arith, h)));
          works =
              replaced (λ b d. Works d) s.client a _ (a ∷ busy)
                (
                  refl,
                  (
                    seen,
                    record {
                      capacity = pending.message.capacity;
                      so_far = pending.message.so_far;
                      have_header = pending.message.have_header;
                      header = pending.message.header;
                      in_buffer = pending.message.in_buffer;
                      whole = pending.message.whole;
                    },
                  ),
                )
                (λ b h ne. sane.works b (omega (arith, h, one_of_ne b a ne)));
        },
      )
