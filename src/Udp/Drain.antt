-- ===== src/Udp/Drain.antt =====
-- A sender that has lost no request: a block ends when what is on its way has been sent.
use puic.Prelude.{ℕ, ◌<◌, ◌≡◌, refl, ap, arith, Bool, true, false}
use puic.Prelude.{List, [], ◌∷◌, length, ◌⊎◌, inl}
use puic.Udp.{max_flying_messages, write_packet, on_uv_send, open_socket}
use puic.Udp.World.{World, write, hand_over, complete, complete_closing, Step, send, sent, freed}
use puic.Udp.World.{Run, here, next, lost, IsValid, Step-IsValid, fresh, fresh-IsValid}

-- The sender blocks only for want of a request.
unfoldable pub IsHonest : World → Type 0
IsHonest w =
    (w.sender.write_blocked ≡ false) ⊎ (length w.sender.avail_send_reqs < max_flying_messages)

write-IsHonest :
    (w : World) (n : ℕ) (accepted : Bool) → IsHonest w → IsValid w → IsHonest (write w n accepted)
unfolding IsHonest IsValid write hand_over write_packet
write-IsHonest w n accepted h v = ground arith

complete-IsHonest :
    (w : World) (before : List ℕ) (req : ℕ) (after : List ℕ)
    → IsHonest w
    → IsValid (complete w before req after)
    → IsHonest (complete w before req after)
unfolding IsHonest IsValid complete on_uv_send
complete-IsHonest w before req after h v = ground arith

Step-IsHonest : {v w : World} → Step v w → IsValid v → IsHonest v → IsHonest w
Step-IsHonest (send w n a) v h = write-IsHonest w n a h v
Step-IsHonest (sent w before req after e) v h =
    complete-IsHonest w before req after h ((Step-IsValid (sent w before req after e) v).0)
Step-IsHonest (freed w before req after e) v h = unfold IsHonest complete_closing on_uv_send in h

Run-IsHonest : {v w : World} → Run v w → IsValid v → IsHonest v → IsValid w × IsHonest w
Run-IsHonest here v h = (v, h)
Run-IsHonest (next r s) v h =
    let (vw, hw) = Run-IsHonest r v h in ((Step-IsValid s vw).0, Step-IsHonest s vw hw)

fresh-IsHonest : IsHonest fresh
unfolding IsHonest fresh open_socket
fresh-IsHonest = inl refl

-- From the opening of the socket on, a sender that is blocked and has lost no request has some on
-- their way.
pub blocked_while_flying :
    {w : World} → Run fresh w → lost w ≡ 0 → w.sender.write_blocked ≡ true → 0 < length w.flying
unfolding IsHonest IsValid
blocked_while_flying r l b =
    let (v, h) = Run-IsHonest r fresh-IsValid fresh-IsHonest in ground arith

-- All of `flying` is sent, first to last.
unfoldable pub drain : List ℕ → World → World
drain [] w = w
drain (req ∷ reqs) w = drain reqs (complete w [] req reqs)

-- With none on their way and none lost the stack is full.
idle_is_unblocked :
    (w : World)
    → w.flying ≡ []
    → IsValid w
    → IsHonest w
    → lost w ≡ 0
    → w.sender.write_blocked ≡ false
unfolding IsHonest IsValid
idle_is_unblocked w e v h l = ground (arith, ap length e)

drain_list :
    (reqs : List ℕ) (w : World)
    → w.flying ≡ reqs
    → IsValid w
    → IsHonest w
    → lost w ≡ 0
    → (drain reqs w).sender.write_blocked ≡ false
unfolding drain
drain_list [] w e v h l = idle_is_unblocked w e v h l
drain_list (req ∷ reqs) w e v h l =
    let s : Step w (complete w [] req reqs) = sent w [] req reqs e in
    drain_list reqs (complete w [] req reqs) (unfold complete in refl) ((Step-IsValid s v).0)
      (Step-IsHonest s v h) (unfold complete in l)

-- Once everything on its way has been sent, a sender that has lost no request is not blocked.
pub drain_unblocks :
    {w : World} → Run fresh w → lost w ≡ 0 → (drain w.flying w).sender.write_blocked ≡ false
drain_unblocks {w = w} r l =
    let (v, h) = Run-IsHonest r fresh-IsValid fresh-IsHonest in drain_list w.flying w refl v h l
