-- ===== src/Dispatch.antt =====
-- Who may write: PuicPerSessionWriter (puicbase/puic/puic_per_session_writer.cc), the write-blocked list
-- of QuicDispatcher (puicbase/net/tools/quic/quic_dispatcher.cc) and what QuicConnection
-- (puicbase/net/quic/core/quic_connection.cc) does when its writer is blocked, above the listener's
-- sender. A session is a number; the packets that it wants to send, with libuv's answers, are inputs.
pub mod Waiting
pub mod Waking
mod Examples
use puic.Prelude.{
  ℕ, zero, suc, ◌≡◌, refl, Bool, true, false, not, ◌||◌, if◌then◌else◌, List, [], ◌∷◌, ◌++◌,
}
use puic.Prelude.{mem, remove_id, length}
use puic.Udp.{WriteResult, ok, blocked, error, write_packet, on_uv_send}
use puic.Udp.World.{write, complete, complete_closing, fresh}
use puic.Udp.World

-- The sender with libuv, the write-blocked list, oldest first, and the sessions whose own writer is
-- blocked.
pub record Serving : Type 0 where
  pub world : World.World
  pub waiting : List ℕ
  pub stuck : List ℕ

unfoldable pub serving : Serving
unfolding fresh
serving = record { world = fresh; waiting = []; stuck = [] }

abbrev pub is_blocked_result : WriteResult → Bool
is_blocked_result (ok n) = false
is_blocked_result blocked = true
is_blocked_result error = false

abbrev pub is_nil : List ℕ → Bool
is_nil [] = true
is_nil (x ∷ xs) = false

-- QuicDispatcher::OnWriteBlocked: nobody is listed while the socket can be written.
unfoldable pub on_write_blocked : Serving → ℕ → Serving
on_write_blocked v session = record v {
  waiting =
      if not v.world.sender.write_blocked || mem session v.waiting
      then v.waiting
      else v.waiting ++ (session ∷ []);
}

-- PuicPerSessionWriter::WritePacket: whether it is blocked, and what it leaves.
unfoldable pub writer_write_packet : Serving → ℕ → ℕ → Bool → Bool × Serving
writer_write_packet v session buf_len accepted =
    let w : World.World = write v.world buf_len accepted in
    if is_blocked_result (write_packet v.world.sender buf_len accepted).0
    then (true, record v { world = w; stuck = session ∷ v.stuck })
    else (false, record v { world = w })

abbrev pub after_write : ℕ → Bool × Serving → Bool × Serving
after_write session (true, v) = (true, on_write_blocked v session)
after_write session (false, v) = (false, v)

-- QuicConnection: CanWrite, then WritePacket.
unfoldable pub connection_write : Serving → ℕ → ℕ × Bool → Bool × Serving
unfolding on_write_blocked writer_write_packet
connection_write v session (buf_len, accepted) =
    if mem session v.stuck
    then (true, on_write_blocked v session)
    else after_write session (writer_write_packet v session buf_len accepted)

-- The packets of WriteQueuedPackets, up to the first that is blocked.
unfoldable pub write_all : Serving → ℕ → List (ℕ × Bool) → Serving
write_all v session [] = v
write_all v session (p ∷ ps) =
    let v' : Serving = (connection_write v session p).1 in
    let rest : Serving = write_all v' session ps in
    if (connection_write v session p).0 then v' else rest

-- OnBlockedWriterCanWrite: SetWritable of the session's own writer, then OnCanWrite.
unfoldable pub on_blocked_writer_can_write : Serving → ℕ → List (ℕ × Bool) → Serving
unfolding write_all
on_blocked_writer_can_write v session packets =
    write_all (record v { stuck = remove_id session v.stuck }) session packets

-- A round of the loop of OnCanWrite, `loop`, with the list as it is.
unfoldable pub take_turn : (Serving → Serving) → (ℕ → List (ℕ × Bool)) → Serving → List ℕ → Serving
unfolding on_blocked_writer_can_write
take_turn loop work v [] = v
take_turn loop work v (session ∷ rest) =
    let next : Serving =
      loop (on_blocked_writer_can_write (record v { waiting = rest }) session (work session)) in
    if v.world.sender.write_blocked then v else next

-- QuicDispatcher::OnCanWrite; `work` are the packets of each session when its turn comes.
unfoldable pub on_can_write : ℕ → (ℕ → List (ℕ × Bool)) → Serving → Serving
unfolding take_turn
on_can_write zero work v = v
on_can_write (suc fuel) work v = take_turn (on_can_write fuel work) work v v.waiting

-- PuicListener::on_uv_send: the request between `before` and `after` was sent.
unfoldable pub on_sent : Serving → List ℕ → ℕ → List ℕ → (ℕ → List (ℕ × Bool)) → Serving
unfolding on_can_write
on_sent v before req after work =
    let v' : Serving = record v { world = complete v.world before req after } in
    if (on_uv_send v.world.sender req false).0 then on_can_write (length v.waiting) work v' else v'

-- The session ends: CleanUpSession, and the writer goes with the connection.
unfoldable pub clean_up_session : Serving → ℕ → Serving
clean_up_session v session = record v {
  waiting = remove_id session v.waiting;
  stuck = remove_id session v.stuck;
}
