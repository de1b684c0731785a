-- ===== src/ClientConnector/Transfer.antt =====
-- ClientConnector.cpp, send_message: what the loop hands to send.
use universal_fencing_hub.Base.{
  ℕ, zero, suc, ◌+◌, ◌-◌, ◌≤◌, ◌<◌, ◌≡◌, refl, sym, ap, ◌∙◌, subst, List, [], ◌∷◌, ◌++◌, some,
  arith, lt→ltb, le→ltb, slice, take, drop, take-slice, append-nil, append_assoc, min, max,
}
use universal_fencing_hub.Outcome.{ok}
use universal_fencing_hub.MsgHeader.{header_size, serialize}
use universal_fencing_hub.NetClient.{SendResult, sent, would_block, send_failed}
use universal_fencing_hub.ClientConnector.{
  Session, buffer_size, send_length, send_loop, sent_all, send_message,
}

-- Calls of send that take `left` bytes in all, none of them more than is left.
abbrev pub Accepts : ℕ → List SendResult → Type 0
Accepts left [] = left ≡ 0
Accepts left (sent n ∷ calls) = (0 < left) × (n ≤ left) × Accepts (left - n) calls
Accepts left (would_block ∷ calls) = ⊥
Accepts left (send_failed ∷ calls) = ⊥

drop-nil : (m : ℕ) → drop {A = ℕ} m [] ≡ []
drop-nil zero = refl
drop-nil (suc m) = refl

drop-drop : (xs : List ℕ) (n m : ℕ) → drop (n + m) xs ≡ drop m (drop n xs)
drop-drop xs zero m = ap (λ t. drop t xs) (omega arith)
drop-drop [] (suc n) m =
    let e : suc n + m ≡ suc (n + m) = omega arith in
    ap (λ t. drop {A = ℕ} t []) e ∙ sym (drop-nil m)
drop-drop (x ∷ xs) (suc n) m =
    let e : suc n + m ≡ suc (n + m) = omega arith in ap (λ t. drop t (x ∷ xs)) e ∙ drop-drop xs n m

-- Two pieces of a list, one behind the other.
slice-join :
    (xs : List ℕ) (start n m : ℕ)
    → slice xs start (start + n) ++ slice xs (start + n) (start + n + m)
      ≡ slice xs start (start + n + m)
slice-join xs start n m =
    let first : start + n - start ≡ n = omega arith in
    let second : start + n + m - (start + n) ≡ n + m - n = omega arith in
    let both : start + n + m - start ≡ n + m = omega arith in
    rw (first, second, both)
      (ap (λ t. take n (drop start xs) ++ take (n + m - n) t) (drop-drop xs start n)
        ∙ take-slice (drop start xs) n m)

send_loop-gone :
    (s : Session) (send_len io_offset : ℕ) (calls : List SendResult)
    → io_offset ≤ send_len
    → Accepts (send_len - io_offset) calls
    → send_loop s send_len io_offset calls
      ≡ some (record s { gone = s.gone ++ slice s.io_buffer io_offset send_len }, send_len)
unfolding send_loop
send_loop-gone s len offset [] h done =
    let e : offset ≡ len = omega (arith, done) in
    let nothing : len - offset ≡ 0 = done in
    rw (le→ltb offset len (omega (arith, done)), nothing)
      (ap (λ t. some (s, t)) e
        ∙ ap (λ t. some (record s { gone = t }, len)) (sym (append-nil s.gone)))
send_loop-gone s len offset (sent n ∷ calls) h (more, few, rest) =
    let next : len - offset - n ≡ len - (offset + n) = omega arith in
    let total : offset + n + (len - (offset + n)) ≡ len = omega arith in
    let after = record s { gone = s.gone ++ slice s.io_buffer offset (offset + n) } in
    let pieces =
      ap (λ t. slice s.io_buffer offset (offset + n) ++ slice s.io_buffer (offset + n) t)
        (sym total)
      ∙ slice-join s.io_buffer offset n (len - (offset + n))
      ∙ ap (slice s.io_buffer offset) total in
    rw (lt→ltb offset len (omega arith)) (
      send_loop-gone after len (offset + n) calls (omega arith)
        (subst (λ t. Accepts t calls) next rest)
      ∙ ap (λ t. some (record s { gone = t }, len))
          (append_assoc s.gone (slice s.io_buffer offset (offset + n))
              (slice s.io_buffer (offset + n) len)
            ∙ ap (λ t. s.gone ++ t) pieces))
send_loop-gone s len offset (would_block ∷ calls) h bad = absurd bad
send_loop-gone s len offset (send_failed ∷ calls) h bad = absurd bad

-- For a header with a length of at most 1024, the size of the I/O buffer: when the calls of send take, each
-- at most what it is offered, as many bytes as the message has, send_message returns, and what has gone to the server is the message: the serialized header and the
-- buffer behind it, at least a header and at most the buffer.
pub send_message-gone :
    (s : Session) (calls : List SendResult)
    → s.header.data_length ≤ buffer_size
    → Accepts (send_length s.header) calls
    → (t : Session) × (send_message s calls ≡ some (ok t tt))
      × (t.gone ≡ s.gone ++ take (send_length s.header) (serialize s.header s.io_buffer))
      × (t.header ≡ s.header)
unfolding send_message sent_all send_length
send_message-gone s calls small accepted =
    let message = serialize s.header s.io_buffer in
    let len = min (max header_size s.header.data_length) buffer_size in
    let whole : len ≡ len - 0 = omega arith in
    (
      record s { io_buffer = message; gone = s.gone ++ slice message 0 len },
      ap sent_all (
            send_loop-gone (record s { io_buffer = message }) len 0 calls (omega arith)
              (subst (λ t. Accepts t calls) whole accepted))
          ∙ rw (le→ltb len s.header.data_length (omega arith)),
      ap (λ t. s.gone ++ take t message) (sym whole),
      refl,
    )
