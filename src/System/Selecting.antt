-- ===== src/System/Selecting.antt =====
-- ServerConnector.cpp, selector_loop: what the selector does with one client of the com queue leaves
-- the server in order.
use universal_fencing_hub.Base.{
  ℕ, ◌+◌, ◌<◌, ◌≡◌, List, [], ◌∷◌, ◌++◌, arith, ==_refl, one_self, count, count-take_out,
}
use universal_fencing_hub.CharBuffer.{CharBuffer}
use universal_fencing_hub.NetClient.{NetClient, Phase, IoOp}
use universal_fencing_hub.Connector.{Connector, set_client, close_connection, input_done}
use universal_fencing_hub.System.Placement.{once, leave-IsPlaced}
use universal_fencing_hub.System.Handing.{release-IsPlaced, hand_over-IsPlaced}
use universal_fencing_hub.System.Sanity.{
  IsSane, Talks, Waits, Works, replaced, elsewhere, before_last,
}

module _ {B : Type 0} ⦃cb : CharBuffer B⦄ {busy used waiting lost : List ℕ} (s : Connector B)
    (xs : List ℕ) (a : ℕ) (ys : List ℕ) (c : NetClient B)
    (sane : IsSane s busy used (xs ++ a ∷ ys) waiting lost) where
  alone : count a (xs ++ ys) + (count a waiting + (count a busy + count a lost)) ≡ 0
  alone = omega (arith, once sane.placed a, count-take_out a xs a ys, one_self a)

  on_queue : (b : ℕ) → 0 < count b (xs ++ ys) → 0 < count b (xs ++ a ∷ ys)
  on_queue b h = omega (arith, count-take_out b xs a ys)

  -- The client stays on the com queue.
  pub stay-IsSane : Talks c → IsSane (set_client s a c) busy used (xs ++ a ∷ ys) waiting lost
  stay-IsSane t = record {
    placed = sane.placed;
    talks = replaced (λ b d. Talks d) s.client a c (xs ++ a ∷ ys) t (λ b h ne. sane.talks b h);
    waits = elsewhere (λ b d. Waits d) s.client a c waiting (omega (arith, alone)) sane.waits;
    works = elsewhere (λ b d. Works d) s.client a c busy (omega (arith, alone)) sane.works;
  }

  -- Its connection is closed.
  pub close-IsSane :
      (used' : List ℕ) × IsSane
        (close_connection (set_client s a c) a)
        busy
        used'
        (xs ++ ys)
        waiting
        lost
  unfolding close_connection
  close-IsSane =
      let (used', placed) = release-IsPlaced [] a busy (leave-IsPlaced xs a ys sane.placed) in
      (
        used',
        record {
          placed = placed;
          talks =
              elsewhere (λ b d. Talks d) _ a _ (xs ++ ys) (omega (arith, alone))
                (elsewhere (λ b d. Talks d) s.client a c (xs ++ ys) (omega (arith, alone))
                  (λ b h. sane.talks b (on_queue b h)));
          waits =
              elsewhere (λ b d. Waits d) _ a _ waiting (omega (arith, alone))
                (elsewhere (λ b d. Waits d) s.client a c waiting (omega (arith, alone)) sane.waits);
          works =
              elsewhere (λ b d. Works d) _ a _ busy (omega (arith, alone))
                (elsewhere (λ b d. Works d) s.client a c busy (omega (arith, alone)) sane.works);
        },
      )

  -- It has a message, and goes to the worker threads.
  pub hand_over-IsSane :
      Waits (record c { io_state = IoOp.noop })
      → IsSane
          (input_done (set_client s a c) a Phase.pending)
          busy
          used
          (xs ++ ys)
          (waiting ++ a ∷ [])
          lost
  unfolding input_done
  hand_over-IsSane w = record {
    placed = hand_over-IsPlaced [] a busy (leave-IsPlaced xs a ys sane.placed);
    talks =
        elsewhere (λ b d. Talks d) _ a _ (xs ++ ys) (omega (arith, alone))
          (elsewhere (λ b d. Talks d) s.client a c (xs ++ ys) (omega (arith, alone))
            (λ b h. sane.talks b (on_queue b h)));
    waits =
        replaced (λ b d. Waits d) _ a _ (waiting ++ a ∷ []) (rw (==_refl a) w)
          (λ b h ne.
            elsewhere (λ b d. Waits d) s.client a c waiting (omega (arith, alone)) sane.waits b
              (before_last b waiting a h ne));
    works =
        elsewhere (λ b d. Works d) _ a _ busy (omega (arith, alone))
          (elsewhere (λ b d. Works d) s.client a c busy (omega (arith, alone)) sane.works);
  }
