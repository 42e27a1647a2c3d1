-- ===== src/Udp/Requests.antt =====
-- Where each request of the pool is.
use puic.Prelude.{
  ℕ, zero, suc, ◌+◌, ◌≡◌, ◌==◌, ltb, refl, ap, arith, Bool, List, [], ◌∷◌, ◌++◌, if◌then◌else◌, ◌∙◌,
}
use puic.Udp.{max_flying_messages, requests, sender, write_packet, take_request, on_uv_send}
use puic.Udp.{open_socket, close_socket}
use puic.Udp.World.{World, write, hand_over, complete, complete_closing, send, sent, freed}
use puic.Udp.World.{Life, step, stop, start, stop_world, start_world, Lives, born, lives, fresh}

-- How often a request is in a list.
unfoldable pub occurrences : ℕ → List ℕ → ℕ
occurrences req [] = 0
occurrences req (r ∷ rs) = (if req == r then 1 else 0) + occurrences req rs

occurrences-append :
    (req : ℕ) (xs ys : List ℕ)
    → occurrences req (xs ++ ys) ≡ occurrences req xs + occurrences req ys
unfolding occurrences
occurrences-append req [] ys = omega arith
occurrences-append req (x ∷ xs) ys = omega (arith, occurrences-append req xs ys)

-- On the stack, on its way, of a closed socket, or gone.
abbrev pub places : ℕ → World → ℕ
places req w =
    occurrences req w.sender.avail_send_reqs
    + occurrences req w.flying
    + occurrences req w.closing
    + occurrences req w.gone

write-places :
    (req : ℕ) (w : World) (n : ℕ) (accepted : Bool) → places req (write w n accepted) ≡ places req w
unfolding write hand_over write_packet take_request occurrences
write-places req w n accepted = ground arith

-- The list without the request that is taken out.
taken_out :
    (req r : ℕ) (xs before after : List ℕ)
    → xs ≡ before ++ (r ∷ after)
    → occurrences req xs ≡ occurrences req (before ++ after) + occurrences req (r ∷ [])
unfolding occurrences
taken_out req r xs before after e = omega (
  arith,
  ap (occurrences req) e,
  occurrences-append req before (r ∷ after),
  occurrences-append req before after,
)

complete-places :
    (req : ℕ) (w : World) (before : List ℕ) (r : ℕ) (after : List ℕ)
    → w.flying ≡ before ++ (r ∷ after)
    → places req (complete w before r after) ≡ places req w
unfolding complete on_uv_send occurrences
complete-places req w before r after e = ground (arith, taken_out req r w.flying before after e)

complete_closing-places :
    (req : ℕ) (w : World) (before : List ℕ) (r : ℕ) (after : List ℕ)
    → w.closing ≡ before ++ (r ∷ after)
    → places req (complete_closing w before r after) ≡ places req w
unfolding complete_closing on_uv_send occurrences
complete_closing-places req w before r after e =
    ground (arith, taken_out req r w.closing before after e)

Life-places : (req : ℕ) {v w : World} → Life v w → places req w ≡ places req v
Life-places req (step (send w n a)) = write-places req w n a
Life-places req (step (sent w before r after e)) = complete-places req w before r after e
Life-places req (step (freed w before r after e)) = complete_closing-places req w before r after e
Life-places req (stop w) =
    unfold stop_world close_socket occurrences in
    omega (arith, occurrences-append req w.flying w.closing)
Life-places req (start w) = unfold start_world open_socket in refl

Lives-places : (req : ℕ) {v w : World} → Lives v w → places req w ≡ places req v
Lives-places req born = refl
Lives-places req (lives r l) = Life-places req l ∙ Lives-places req r

occurrences-requests : (req n : ℕ) → occurrences req (requests n) ≡ (if ltb req n then 1 else 0)
unfolding occurrences requests
occurrences-requests req zero = ground arith
occurrences-requests req (suc n) = ground (arith, occurrences-requests req n)

alone : (n : ℕ) → n + 0 + 0 + 0 ≡ n
alone n = omega arith

fresh-places : (req : ℕ) → places req fresh ≡ occurrences req (requests max_flying_messages)
unfolding fresh open_socket sender occurrences
fresh-places req = alone (occurrences req (requests max_flying_messages))

-- Over a whole life of a sender, sockets closed and opened again included, each request of the pool is in
-- exactly one place: on the stack, on its way, with a closed socket or gone; no other request is
-- anywhere.
pub each_in_one_place :
    {w : World} (req : ℕ)
    → Lives fresh w
    → places req w ≡ (if ltb req max_flying_messages then 1 else 0)
each_in_one_place req r =
    Lives-places req r ∙ fresh-places req ∙ occurrences-requests req max_flying_messages
