-- ===== src/System/Working.antt =====
-- ServerConnector.cpp, process_action_queue: a worker thread gives up a client that it has executed the
-- message of.
use universal_fencing_hub.Base.{
  ℕ, ◌+◌, ◌≤◌, ◌<◌, ◌≡◌, sym, ap, ◌∙◌, subst, List, [], ◌∷◌, ◌++◌, arith, Bool-cases, ◌⊎◌, inl, inr,
  true, ==_refl, one_self, count, count-take_out, if◌then◌else◌,
}
use universal_fencing_hub.CharBuffer.{CharBuffer}
use universal_fencing_hub.NetClient.{NetClient, Phase, io_buffer_size}
use universal_fencing_hub.NetClient.Sending.{put_header-IsSending}
use universal_fencing_hub.Server.{FenceFunctions}
use universal_fencing_hub.Requests.{process_client_message}
use universal_fencing_hub.Requests.Phases.{
  IsAnswered, IsHandled, Handles, process_client_message-Handles,
}
use universal_fencing_hub.Connector.{Connector, set_client, finish_client, close_connection}
use universal_fencing_hub.Connector.Worker.Answering.{continued, finish_client-as}
use universal_fencing_hub.System.Placement.{once}
use universal_fencing_hub.System.Handing.{
  return-IsPlaced, release-IsPlaced, strand-IsPlaced, forget-IsPlaced,
}
use universal_fencing_hub.System.Sanity.{
  IsSane, Talks, Waits, Works, replaced, elsewhere, before_last,
}

module _ {B : Type 0} ⦃cb : CharBuffer B⦄ where
  answered-Talks : (c : NetClient B) → IsAnswered c → Talks c
  answered-Talks c d = inr (record {
    phase = d.phase;
    next = d.next;
    io = d.io;
    gone = [];
    message = _;
    sending = put_header-IsSending c d.reply;
  })

  -- With a round for each byte of its message, a worker's client is handled.
  pub handled :
      (rounds : ℕ) (plugin : FenceFunctions) (c : NetClient B)
      → Works c
      → io_buffer_size ≤ rounds
      → Handles c (process_client_message rounds plugin c)
  handled rounds plugin c (phase, (seen, m)) enough =
      process_client_message-Handles rounds plugin c phase
        (omega (arith, m.whole, m.in_buffer, enough)) (omega (arith, enough))

  -- The connection is closed: the server stops, or the client has no reply.
  abbrev pub IsClosing : Connector B → NetClient B → Type 0
  IsClosing s c =
      (s.signaled ≡ true) ⊎ (c.current_phase ≡ Phase.executing) ⊎ (c.current_phase ≡ Phase.canceled)

  -- The client goes on only when it is answered.
  finish_client-cases :
      (t : Connector B) (a : ℕ)
      → IsHandled (t.client a)
      → (IsAnswered (t.client a) × (finish_client t a ≡ continued t a))
        ⊎ (IsClosing t (t.client a) × (finish_client t a ≡ close_connection t a))
  finish_client-cases t a (inl d) = elim (Bool-cases t.signaled) [
    | inl stopped ↦ inr (
      inl stopped,
      finish_client-as t a Phase.send d.phase
          ∙ ap (λ b. if b then close_connection t a else continued t a) stopped,
    )
    | inr running ↦ inl (
      d,
      finish_client-as t a Phase.send d.phase
          ∙ ap (λ b. if b then close_connection t a else continued t a) running,
    )
  ]
  finish_client-cases t a (inr (inl executing)) =
      inr (inr (inl executing), finish_client-as t a Phase.executing executing)
  finish_client-cases t a (inr (inr canceled)) =
      inr (inr (inr canceled), finish_client-as t a Phase.canceled canceled)

  module _ {used talking waiting lost : List ℕ} (s : Connector B) (pre : List ℕ) (a : ℕ)
      (post : List ℕ) (c : NetClient B)
      (sane : IsSane s (pre ++ a ∷ post) used talking waiting lost) where
    alone : count a talking + (count a waiting + (count a (pre ++ post) + count a lost)) ≡ 0
    alone = omega (arith, once sane.placed a, count-take_out a pre a post, one_self a)

    still : (b : ℕ) → 0 < count b (pre ++ post) → 0 < count b (pre ++ a ∷ post)
    still b h = omega (arith, count-take_out b pre a post)

    -- Back on the com queue.
    return-IsSane :
        Talks c
        → IsSane
            (continued (set_client s a c) a)
            (pre ++ post)
            used
            (talking ++ a ∷ [])
            waiting
            lost
    return-IsSane t = record {
      placed = return-IsPlaced pre a post sane.placed;
      talks =
          replaced (λ b d. Talks d) s.client a c (talking ++ a ∷ []) t
            (λ b h ne. sane.talks b (before_last b talking a h ne));
      waits = elsewhere (λ b d. Waits d) s.client a c waiting (omega (arith, alone)) sane.waits;
      works =
          elsewhere (λ b d. Works d) s.client a c (pre ++ post) (omega (arith, alone))
            (λ b h. sane.works b (still b h));
    }

    -- Closed, by a thread that does not hold the com queue's lock: the com queue forgets its clients.
    drop-IsSane :
        (used' : List ℕ) × IsSane
          (close_connection (set_client s a c) a)
          (pre ++ post)
          used'
          []
          waiting
          (talking ++ lost)
    unfolding close_connection
    drop-IsSane =
        let (used', placed) =
          release-IsPlaced pre a post (forget-IsPlaced pre a post sane.placed) in
        (
          used',
          record {
            placed = placed;
            talks = λ b h. absurd (omega arith);
            waits =
                elsewhere (λ b d. Waits d) _ a _ waiting (omega (arith, alone))
                  (elsewhere (λ b d. Waits d) s.client a c waiting (omega (arith, alone))
                    sane.waits);
            works =
                elsewhere (λ b d. Works d) _ a _ (pre ++ post) (omega (arith, alone))
                  (elsewhere (λ b d. Works d) s.client a c (pre ++ post) (omega (arith, alone))
                    (λ b h. sane.works b (still b h)));
          },
        )

    -- Left where it is, by an exception.
    pub strand-IsSane : IsSane (set_client s a c) (pre ++ post) used talking waiting (a ∷ lost)
    strand-IsSane = record {
      placed = strand-IsPlaced pre a post sane.placed;
      talks = elsewhere (λ b d. Talks d) s.client a c talking (omega (arith, alone)) sane.talks;
      waits = elsewhere (λ b d. Waits d) s.client a c waiting (omega (arith, alone)) sane.waits;
      works =
          elsewhere (λ b d. Works d) s.client a c (pre ++ post) (omega (arith, alone))
            (λ b h. sane.works b (still b h));
    }

    there : (P : NetClient B → Type 0) → P c → P ((set_client s a c).client a)
    there P h = rw (==_refl a) h

    -- Of the two ways on, the one or the other.
    pub finish_client-IsSane :
        IsHandled c
        → (IsAnswered c
            × IsSane
                (finish_client (set_client s a c) a)
                (pre ++ post)
                used
                (talking ++ a ∷ [])
                waiting
                lost)
          ⊎ (IsClosing s c
              × ((used' : List ℕ) × IsSane
                    (finish_client (set_client s a c) a)
                    (pre ++ post)
                    used'
                    []
                    waiting
                    (talking ++ lost)))
    finish_client-IsSane h = elim (finish_client-cases (set_client s a c) a (there IsHandled h)) [
      | inl (d, e) ↦
          let answered : IsAnswered c =
            subst (λ t. IsAnswered (if t then c else s.client a)) (==_refl a) d in
          inl (
            answered,
            subst (λ u. IsSane u (pre ++ post) used (talking ++ a ∷ []) waiting lost) (sym e)
                (return-IsSane (answered-Talks c answered)),
          )
      | inr (why, e) ↦
          let (used', dropped) = drop-IsSane in
          let closing : IsClosing s c =
            subst (λ t. IsClosing s (if t then c else s.client a)) (==_refl a) why in
          inr (
            closing,
            (
              used',
              subst (λ u. IsSane u (pre ++ post) used' [] waiting (talking ++ lost)) (sym e)
                  dropped,
            ),
          )
    ]
