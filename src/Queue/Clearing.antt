-- ===== src/Queue/Clearing.antt =====
-- Queue.h, `clear`: every node of the queue is unlinked.
use universal_fencing_hub.Base.{
  ℕ, zero, suc, ◌≤◌, ◌≡◌, refl, sym, subst, ◌∙◌, List, [], ◌∷◌, none, some, arith, length,
}
use universal_fencing_hub.Queue.{Queue, clear, clear_links}
use universal_fencing_hub.Queue.Node.{Ptr, Links, set_next, set_prev, update-ne, update_self}
use universal_fencing_hub.Queue.Segment.{first, Seg, Apart, Distinct, Seg-set_next, Seg-set_prev}
use universal_fencing_hub.Queue.Refinement.{IsQueue}

abbrev pub AllUnlinked : Links → List ℕ → Type 0
AllUnlinked l [] = Unit {0}
AllUnlinked l (x ∷ xs) = ((l.next_node x ≡ none) × (l.prev_node x ≡ none)) × AllUnlinked l xs

-- The links of the other nodes stay.
abbrev SameAt : ℕ → Links → Links → Type 0
SameAt a l m = (m.next_node a ≡ l.next_node a) × (m.prev_node a ≡ l.prev_node a)

abbrev unlinked_at : Links → ℕ → Links
unlinked_at l x = set_prev (set_next l x none) x none

Seg-unlinked_at :
    (l : Links) (p : Ptr) (x : ℕ) (xs : List ℕ)
    → Apart x xs
    → Seg l p xs none
    → Seg (unlinked_at l x) p xs none
Seg-unlinked_at l p x xs h s =
    Seg-set_prev (set_next l x none) p none none x xs h (Seg-set_next l p none none x xs h s)

clear_links-SameAt :
    (rounds : ℕ) (l : Links) (p start : Ptr) (xs : List ℕ) (a : ℕ)
    → start ≡ first xs none
    → Seg l p xs none
    → Distinct xs
    → Apart a xs
    → SameAt a l (clear_links rounds l start)
unfolding clear_links
clear_links-SameAt zero l p start xs a e s d h = (refl, refl)
clear_links-SameAt (suc rounds) l p start [] a e s d h = rw e (refl, refl)
clear_links-SameAt (suc rounds) l p start (x ∷ xs) a e s d h =
    let rest =
      clear_links-SameAt rounds (unlinked_at l x) (some x) (l.next_node x) xs a s.1
        (Seg-unlinked_at l (some x) x xs d.0 s.2) d.1 h.1 in
    rw e (rest.0 ∙ update-ne l.next_node x none a h.0, rest.1 ∙ update-ne l.prev_node x none a h.0)

clear_links-AllUnlinked :
    (rounds : ℕ) (l : Links) (p start : Ptr) (xs : List ℕ)
    → length xs ≤ rounds
    → start ≡ first xs none
    → Seg l p xs none
    → Distinct xs
    → AllUnlinked (clear_links rounds l start) xs
unfolding clear_links
clear_links-AllUnlinked rounds l p start [] h e s d = tt
clear_links-AllUnlinked zero l p start (x ∷ xs) h e s d = absurd (omega arith)
clear_links-AllUnlinked (suc rounds) l p start (x ∷ xs) h e s d =
    let kept = Seg-unlinked_at l (some x) x xs d.0 s.2 in
    let same =
      clear_links-SameAt rounds (unlinked_at l x) (some x) (l.next_node x) xs x s.1 kept d.1 d.0 in
    subst (λ t. AllUnlinked (clear_links (suc rounds) l t) (x ∷ xs)) (sym e)
      (
        (same.0 ∙ update_self l.next_node x none, same.1 ∙ update_self l.prev_node x none),
        clear_links-AllUnlinked rounds (unlinked_at l x) (some x) (l.next_node x) xs (omega arith)
            s.1 kept d.1,
      )

-- With a round for each node, `clear` empties a queue and unlinks all its nodes.
pub clear_lem :
    (rounds : ℕ) (q : Queue) (l : Links) (xs : List ℕ)
    → IsQueue q l xs
    → length xs ≤ rounds
    → IsQueue (clear rounds q l).0 (clear rounds q l).1 [] × AllUnlinked (clear rounds q l).1 xs
unfolding clear
clear_lem rounds q l xs is h = (
  record { head = refl; tail = refl; size = refl; small = omega arith; linked = tt; distinct = tt },
  clear_links-AllUnlinked rounds l none q.head_node xs h is.head is.linked is.distinct,
)
