-- ===== src/Udp/Stall.antt =====
-- A sender that has lost a request: once it is blocked it stays so until its socket is closed.
use puic.Prelude.{ℕ, ◌<◌, ◌≡◌, arith, Bool, true}
use puic.Prelude.{List}
use puic.Udp.{write_packet, on_uv_send}
use puic.Udp.World.{World, write, hand_over, complete, complete_closing, Step, send, sent, freed}
use puic.Udp.World.{Run, here, next, lost, IsValid, Step-IsValid}

write-blocked :
    (w : World) (n : ℕ) (accepted : Bool)
    → w.sender.write_blocked ≡ true
    → (write w n accepted).sender.write_blocked ≡ true
unfolding write hand_over write_packet
write-blocked w n accepted h = ground arith

-- With a request lost the stack is never full again, so a completion does not unblock.
complete-blocked :
    (w : World) (before : List ℕ) (req : ℕ) (after : List ℕ)
    → IsValid (complete w before req after)
    → 0 < lost w
    → w.sender.write_blocked ≡ true
    → (complete w before req after).sender.write_blocked ≡ true
unfolding complete on_uv_send IsValid
complete-blocked w before req after v l h = ground arith

Step-blocked :
    {v w : World}
    → Step v w
    → IsValid v
    → 0 < lost v
    → v.sender.write_blocked ≡ true
    → w.sender.write_blocked ≡ true
Step-blocked (send w n a) v l h = write-blocked w n a h
Step-blocked (sent w before req after e) v l h =
    complete-blocked w before req after ((Step-IsValid (sent w before req after e) v).0) l h
Step-blocked (freed w before req after e) v l h = unfold complete_closing on_uv_send in h

-- The three conditions together, as a run keeps them.
Run-blocked :
    {v w : World}
    → Run v w
    → IsValid v
    → 0 < lost v
    → v.sender.write_blocked ≡ true
    → IsValid w × (0 < lost w) × (w.sender.write_blocked ≡ true)
Run-blocked here v l h = (v, l, h)
Run-blocked (next r s) v l h =
    let (vw, lw, hw) = Run-blocked r v l h in
    let (vx, more) = Step-IsValid s vw in (vx, omega arith, Step-blocked s vw lw hw)

-- A blocked sender that has lost a request, to a refusal of uv_udp_send or to a socket closed while
-- it was on its way, stays blocked whatever is sent and whatever completes.
pub blocked_for_good :
    {v w : World}
    → IsValid v
    → 0 < lost v
    → v.sender.write_blocked ≡ true
    → Run v w
    → w.sender.write_blocked ≡ true
blocked_for_good v l h r = (Run-blocked r v l h).2
