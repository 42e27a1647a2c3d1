-- ===== src/Flow/Sending.antt =====
-- The send side: what may be sent, what the peer's updates open, and the BLOCKED frames.
use puic.Prelude.{ℕ, ◌+◌, ◌-◌, ◌≤◌, ◌≡◌, arith, [], ◌∷◌}
use puic.Prelude.{ltb, leb, not, ◌&&◌, if◌then◌else◌}
use puic.Flow.{FlowController, blocked, close_sent_too_much_data, add_bytes_sent}
use puic.Flow.{send_window_size, is_blocked, update_send_window_offset, maybe_send_blocked}
use puic.Flow.Valid.{IsCount, IsValid}

-- Bytes within the send window are counted and nothing is closed; a byte more closes the connection
-- and fills the window; in either case the window shrinks by what was counted.
pub add_bytes_sent_lem :
    {c : FlowController} (n : ℕ)
    → IsValid c
    → IsCount n
    → let (c', events) = add_bytes_sent c n in
      (c'.bytes_sent
        ≡ (if leb n (send_window_size c) then c.bytes_sent + n else c.send_window_offset))
      × (events ≡ (if leb n (send_window_size c) then [] else close_sent_too_much_data ∷ []))
      × (send_window_size c' ≡ send_window_size c - n)
unfolding add_bytes_sent send_window_size
add_bytes_sent_lem {c} n v h = (ground arith, ground arith, ground arith)

-- An update never lowers the offset, reaches what it asks for, and answers true exactly when it
-- turns a blocked controller into one that is not.
pub update_send_window_offset_lem :
    {c : FlowController} (n : ℕ)
    → IsValid c
    → let (unblocked, c') = update_send_window_offset c n in
      (c.send_window_offset ≤ c'.send_window_offset)
      × (n ≤ c'.send_window_offset)
      × (unblocked ≡ (is_blocked c && not (is_blocked c')))
unfolding update_send_window_offset is_blocked
update_send_window_offset_lem {c} n v = (ground arith, ground arith, ground arith)

-- A BLOCKED frame is sent exactly when the window is used up and none was sent at this offset, and
-- asking again sends no second one.
pub maybe_send_blocked_once :
    (c : FlowController)
    → let (c', events) = maybe_send_blocked c in
      (events ≡ (
        if is_blocked c && ltb c.last_blocked_send_window_offset c.send_window_offset
        then blocked c.id ∷ []
        else []))
      × (maybe_send_blocked c' ≡ (c', []))
unfolding maybe_send_blocked is_blocked
maybe_send_blocked_once c = (ground arith, ground arith)
