-- ===== src/Client/Safety.antt =====
-- Client.cpp: the client reports success only when the server says so.
use universal_fencing_hub.Base.{
  ℕ, ◌≡◌, refl, sym, ap, ◌∙◌, ◌⊎◌, inl, inr, Bool, true, false, List, [], ◌∷◌, Option, none, some,
  if◌then◌else◌, bytes_eq, fun_ext,
}
use universal_fencing_hub.CharBuffer.{CharBuffer}
use universal_fencing_hub.Outcome.{Outcome, ok, throw, protocol_exception, client_exception}
use universal_fencing_hub.MsgHeader.{MsgType, is_msg_type}
use universal_fencing_hub.NetClient.{RecvResult, SendResult}
use universal_fencing_hub.Arguments.{Entry, ArgMap, get_value}
use universal_fencing_hub.ClientConnector.{
  Session, Calls, exchange, fence_checked, echo_checked, receive_message, send_message, compose,
  fence_action_impl, request_off, request_on, request_reboot, check_connection,
}
use universal_fencing_hub.Parameters.Client.{
  key_action, key_protocol, key_ip_address, key_tcp_port, key_nodename, key_secret, action_off,
  action_on, action_reboot, action_list, action_monitor, action_status,
}
use universal_fencing_hub.Client.{
  ExitCode, Network, and_then, close_session, exit_code_of, request, open_connector, send_request,
  fence_action, check_server_connection, dispatch_action, dispatch_by,
}

-- A whole message of this type came from the server.
abbrev pub Received : List RecvResult → MsgType → Type 0
Received reads msg_type =
    (before after : Session) × (receive_message before reads ≡ some (ok after tt))
    × (is_msg_type after.header msg_type ≡ true)

exchange-received :
    (check : Session → Outcome Session Bool) (s : Session) (writes : List SendResult)
    (reads : List RecvResult) (t : Session) (b : Bool)
    → exchange check s writes reads ≡ some (ok t b)
    → (before after : Session) × (receive_message before reads ≡ some (ok after tt))
      × (check after ≡ ok t b)
unfolding exchange
exchange-received check s writes reads t b = by_send (send_message s writes)
  where
    by_receive :
        (s1 : Session) (r : Calls (Unit {0}))
        → receive_message s1 reads ≡ r
        → elim r [
          | none ↦ none
          | some (throw s2 e) ↦ some (throw s2 e)
          | some (ok s2 _) ↦ some (check s2)
        ]
          ≡ some (ok t b)
        → (before after : Session) × (receive_message before reads ≡ some (ok after tt))
          × (check after ≡ ok t b)
    by_receive s1 none e h = absurd (cc)
    by_receive s1 (some (throw s2 x)) e h = absurd (cc)
    by_receive s1 (some (ok s2 _)) e h =
        (s1, s2, e, ap (λ o. elim o [ none ↦ check s2 | some x ↦ x ]) h)

    by_send :
        (r : Calls (Unit {0}))
        → elim r [
          | none ↦ none
          | some (throw s1 e) ↦ some (throw s1 e)
          | some (ok s1 _) ↦ elim (receive_message s1 reads) [
            | none ↦ none
            | some (throw s2 e) ↦ some (throw s2 e)
            | some (ok s2 _) ↦ some (check s2)
          ]
        ]
          ≡ some (ok t b)
        → (before after : Session) × (receive_message before reads ≡ some (ok after tt))
          × (check after ≡ ok t b)
    by_send none h = absurd (cc)
    by_send (some (throw s1 e)) h = absurd (cc)
    by_send (some (ok s1 _)) h = by_receive s1 (receive_message s1 reads) refl h

fence_checked-true :
    (s t : Session)
    → fence_checked s ≡ ok t true
    → is_msg_type s.header MsgType.fence_success ≡ true
unfolding fence_checked
fence_checked-true s t h =
    by_tests (is_msg_type s.header MsgType.fence_success) (is_msg_type s.header MsgType.fence_fail)
      h
  where
    by_tests :
        (success fail : Bool)
        → (if success then ok s true else (if fail then ok s false else throw s protocol_exception))
          ≡ ok t true
        → success ≡ true
    by_tests true fail h = refl
    by_tests false true h = absurd (cc)
    by_tests false false h = absurd (cc)

-- A call that returned, and what followed it.
and_then-ok :
    {M A C : Type 0} {n : M} {c : C} (r : Outcome M A) (f : M → A → Option (Outcome M C))
    → and_then r f ≡ some (ok n c)
    → (m : M) × (a : A) × (f m a ≡ some (ok n c))
and_then-ok (throw m e) f h = absurd (cc)
and_then-ok (ok m a) f h = (m, a, h)

-- What close_session passes on came from the session.
close_session-ok :
    {M : Type 0} (m n : M) (r : Calls Bool) (b : Bool)
    → close_session m r ≡ some (ok n b)
    → (s : Session) × (r ≡ some (ok s b))
unfolding close_session
close_session-ok m n none b h = absurd (cc)
close_session-ok m n (some (throw s e)) b h = absurd (cc)
close_session-ok m n (some (ok s c)) b h = (s, ap (λ t. some (ok s t)) (value h))
  where
    value : some (ok m c) ≡ some (ok n b) → c ≡ b
    value h = ap (λ o. elim o [ none ↦ c | some r ↦ elim r [ ok k x ↦ x | throw k e ↦ c ] ]) h

exit_code_of-success :
    {M : Type 0} (n : M) (r : Option (Outcome M Bool))
    → exit_code_of r ≡ some (ok n ExitCode.fencing_success)
    → (k : M) × (r ≡ some (ok k true))
unfolding exit_code_of
exit_code_of-success n none h = absurd (cc)
exit_code_of-success n (some (throw m e)) h = absurd (cc)
exit_code_of-success n (some (ok m true)) h = (m, refl)
exit_code_of-success n (some (ok m false)) h = absurd (cc)

module _ {B : Type 0} ⦃cb : CharBuffer B⦄ where
  fence_action_impl-true :
      (s t : Session) (msg_type : MsgType) (nodename secret : B) (writes : List SendResult)
      (reads : List RecvResult)
      → fence_action_impl s msg_type nodename secret writes reads ≡ some (ok t true)
      → Received reads MsgType.fence_success
  unfolding fence_action_impl
  fence_action_impl-true s t msg_type nodename secret writes reads =
      by_compose (compose s msg_type (cb.contents nodename) (cb.contents secret))
    where
      by_compose :
          (r : Outcome Session (Unit {0}))
          → elim r [
            | throw s1 e ↦ some (throw s1 e)
            | ok s1 _ ↦ exchange fence_checked s1 writes reads
          ]
            ≡ some (ok t true)
          → Received reads MsgType.fence_success
      by_compose (throw s1 e) h = absurd (cc)
      by_compose (ok s1 _) h =
          let (before, after, e, checked) =
            exchange-received fence_checked s1 writes reads t true h in
          (before, after, e, fence_checked-true after t checked)

  request-true :
      (net : Network) (action nodename secret : B) (s t : Session)
      → request net action nodename secret s ≡ some (ok t true)
      → Received net.reads MsgType.fence_success
  unfolding request request_off request_on request_reboot
  request-true net action nodename secret s t =
      by_tests (cb.equals action action_off) (cb.equals action action_on)
        (cb.equals action action_reboot)
    where
      by_tests :
          (off on reboot : Bool)
          → (if off
              then fence_action_impl s MsgType.fence_off nodename secret net.writes net.reads
              else (if on
                  then fence_action_impl s MsgType.fence_on nodename secret net.writes net.reads
                  else (if reboot
                      then fence_action_impl s MsgType.fence_reboot nodename secret net.writes
                          net.reads
                      else some (throw s client_exception))))
            ≡ some (ok t true)
          → Received net.reads MsgType.fence_success
      by_tests true on reboot h =
          fence_action_impl-true s t MsgType.fence_off nodename secret net.writes net.reads h
      by_tests false true reboot h =
          fence_action_impl-true s t MsgType.fence_on nodename secret net.writes net.reads h
      by_tests false false true h =
          fence_action_impl-true s t MsgType.fence_reboot nodename secret net.writes net.reads h
      by_tests false false false h = absurd (cc)

module _ {M : Type 0} (B : Type 0) ⦃cb : CharBuffer B⦄ ⦃am : ArgMap M (Entry B)⦄
    (net : Network) where
  send_request-true :
      (m n : M) (s : Session)
      → send_request B net m s ≡ some (ok n true)
      → Received net.reads MsgType.fence_success
  unfolding send_request
  send_request-true m n s h =
      let (m1, action, h1) = and_then-ok (get_value {B = B} m key_action) _ h in
      let (m2, nodename, h2) = and_then-ok (get_value {B = B} m1 key_nodename) _ h1 in
      let (m3, secret, h3) = and_then-ok (get_value {B = B} m2 key_secret) _ h2 in
      let (t, done) = close_session-ok m3 n (request net action nodename secret s) true h3 in
      request-true net action nodename secret s t done

  fence_action-true :
      (m n : M) → fence_action B net m ≡ some (ok n true) → Received net.reads MsgType.fence_success
  unfolding fence_action
  fence_action-true m n h =
      let (k, s, sent) =
        and_then-ok
          (open_connector B net m
            (key_protocol ∷ key_ip_address ∷ key_tcp_port ∷ key_nodename ∷ key_secret ∷ []))
          (λ k s. send_request B net k s) h in
      send_request-true k n s sent

  check_server_connection-true :
      (m n : M)
      → check_server_connection B net m ≡ some (ok n true)
      → Received net.reads MsgType.echo_reply
  unfolding check_server_connection check_connection echo_checked
  check_server_connection-true m n h =
      let (k, s, sent) =
        and_then-ok (open_connector B net m (key_protocol ∷ key_ip_address ∷ key_tcp_port ∷ []))
          (λ k s. close_session k (check_connection s net.writes net.reads)) h in
      let (t, done) = close_session-ok k n (check_connection s net.writes net.reads) true sent in
      let (before, after, e, checked) =
        exchange-received echo_checked _ net.writes net.reads t true done in
      (before, after, e, ap value checked)
    where
      value : Outcome Session Bool → Bool
      value (ok s b) = b
      value (throw s e) = false

  -- dispatch_action goes by the bytes of the action.
  by_text :
      (m : M) (action : B) (text : List ℕ)
      → cb.contents action ≡ text
      → dispatch_action B net m action ≡ dispatch_by B net m (bytes_eq text)
  unfolding dispatch_action
  by_text m action text e =
      ap (dispatch_by B net m) (fun_ext (λ t. cb.equals_lem action t))
      ∙ ap (λ c. dispatch_by B net m (bytes_eq c)) e

  fenced :
      (m n : M)
      → exit_code_of (fence_action B net m) ≡ some (ok n ExitCode.fencing_success)
      → Received net.reads MsgType.fence_success
  fenced m n h =
      let (k, done) = exit_code_of-success n (fence_action B net m) h in fence_action-true m k done

  checked :
      (m n : M)
      → exit_code_of (check_server_connection B net m) ≡ some (ok n ExitCode.fencing_success)
      → Received net.reads MsgType.echo_reply
  checked m n h =
      let (k, done) = exit_code_of-success n (check_server_connection B net m) h in
      check_server_connection-true m k done

  -- When the action is off, on or reboot, and the client ends with success, a whole message of the type
  -- FENCE_SUCCESS came from the server.
  pub dispatch_action-fences :
      (m n : M) (action : B)
      → (cb.contents action ≡ action_off)
        ⊎ (cb.contents action ≡ action_on)
        ⊎ (cb.contents action ≡ action_reboot)
      → dispatch_action B net m action ≡ some (ok n ExitCode.fencing_success)
      → Received net.reads MsgType.fence_success
  unfolding dispatch_by
  dispatch_action-fences m n action (inl e) h = fenced m n (sym (by_text m action action_off e) ∙ h)
  dispatch_action-fences m n action (inr (inl e)) h =
      fenced m n (sym (by_text m action action_on e) ∙ h)
  dispatch_action-fences m n action (inr (inr e)) h =
      fenced m n (sym (by_text m action action_reboot e) ∙ h)

  -- When the action is list, monitor or status, and the client ends with success, a whole message of the
  -- type ECHO_REPLY came from the server.
  pub dispatch_action-checks :
      (m n : M) (action : B)
      → (cb.contents action ≡ action_list)
        ⊎ (cb.contents action ≡ action_monitor)
        ⊎ (cb.contents action ≡ action_status)
      → dispatch_action B net m action ≡ some (ok n ExitCode.fencing_success)
      → Received net.reads MsgType.echo_reply
  unfolding dispatch_by
  dispatch_action-checks m n action (inl e) h =
      checked m n (sym (by_text m action action_list e) ∙ h)
  dispatch_action-checks m n action (inr (inl e)) h =
      checked m n (sym (by_text m action action_monitor e) ∙ h)
  dispatch_action-checks m n action (inr (inr e)) h =
      checked m n (sym (by_text m action action_status e) ∙ h)
