-- ===== src/Session.antt =====
-- The streams of a session: QuicSession (puicbase/net/quic/core/quic_session.cc), PuicSessionBase and
-- PuicStream (puicbase/puic), and what PuicServerConn and PuicClientConn do with a stream that the
-- peer opens. A call through a null delegate is none. Of a stream only what the session reads is kept;
-- that it is in draining_streams_, which holds open streams only, is a mark on it. The counters are
-- natural numbers. Data, flow control and acknowledgements are other modules'.
pub mod Maps
pub mod Taken
pub mod Counting
pub mod Closing
pub mod Opening
pub mod Frames
pub mod Changes
pub mod Arrivals
pub mod Closed
pub mod Life
pub mod Unwanted
mod Examples
use puic.Prelude.{
  ℕ, zero, suc, ◌+◌, ◌-◌, ◌*◌, ◌/◌, ◌%◌, ◌^◌, ◌==◌, ltb, leb, if◌then◌else◌, Bool, true, false, not,
}
use puic.Prelude.{mem, remove_id, ◌&&◌, ◌||◌, List, [], ◌∷◌, ◌++◌, Option, none, some, length}

pub record Stream : Type 0 where
  pub id : ℕ
  pub closed : Bool
  pub delegate : Bool
  pub rst_sent : Bool
  pub waiting_for_acks : Bool
  pub has_final_offset : Bool
  pub highest_offset : ℕ
  pub draining : Bool

abbrev pub stream : ℕ → Stream
stream id = record {
  id = id;
  closed = false;
  delegate = false;
  rst_sent = false;
  waiting_for_acks = false;
  has_final_offset = false;
  highest_offset = 0;
  draining = false;
}

-- `resets` are the streams that a RST_STREAM frame was sent for.
pub record Session : Type 0 where
  pub max_open_incoming : ℕ
  pub max_open_outgoing : ℕ
  pub next_outgoing : ℕ
  pub largest_peer : ℕ
  pub available : List ℕ
  pub streams : List Stream
  pub num_incoming : ℕ
  pub num_draining : ℕ
  pub locally_closed : List (ℕ × ℕ)
  pub num_locally_closed : ℕ
  pub zombies : List Stream
  pub closed_streams : List Stream
  pub registered : List ℕ
  pub preset : Option ℕ
  pub encrypted : Bool
  pub connected : Bool
  pub resets : List ℕ

unfoldable pub session : Bool → ℕ → ℕ → Session
session server max_in max_out = record {
  max_open_incoming = max_in;
  max_open_outgoing = max_out;
  next_outgoing = if server then 2 else 3;
  largest_peer = if server then 1 else 0;
  available = [];
  streams = [];
  num_incoming = 0;
  num_draining = 0;
  locally_closed = [];
  num_locally_closed = 0;
  zombies = [];
  closed_streams = [];
  registered = [];
  preset = none;
  encrypted = false;
  connected = true;
  resets = [];
}

abbrev pub find_stream : List Stream → ℕ → Option Stream
find_stream [] id = none
find_stream (t ∷ ts) id = if t.id == id then some t else find_stream ts id

abbrev pub erase_stream : List Stream → ℕ → List Stream
erase_stream [] id = []
erase_stream (t ∷ ts) id = if t.id == id then erase_stream ts id else t ∷ erase_stream ts id

abbrev pub replace_stream : List Stream → Stream → List Stream
replace_stream [] u = []
replace_stream (t ∷ ts) u = if t.id == u.id then u ∷ ts else t ∷ replace_stream ts u

abbrev pub erase_key : List (ℕ × ℕ) → ℕ → List (ℕ × ℕ)
erase_key [] k = []
erase_key ((j, v) ∷ m) k = if j == k then erase_key m k else (j, v) ∷ erase_key m k

abbrev pub has_key : List (ℕ × ℕ) → ℕ → Bool
has_key [] k = false
has_key ((j, v) ∷ m) k = (j == k) || has_key m k

abbrev pub found : Option Stream → Bool
found none = false
found (some t) = true

abbrev pub crypto_stream_id : ℕ
crypto_stream_id = 1

abbrev pub preset_stream_id : ℕ
preset_stream_id = 3

unfoldable pub is_incoming : Session → ℕ → Bool
is_incoming s id = not (id % 2 == s.next_outgoing % 2)

unfoldable pub is_open : Session → ℕ → Bool
is_open s id = (id == crypto_stream_id) || found (find_stream s.streams id)

-- The last two cases of IsClosedStream: the identifier was used.
unfoldable pub is_taken : Session → ℕ → Bool
unfolding is_incoming
is_taken s id =
    if not (is_incoming s id)
    then ltb id s.next_outgoing
    else leb id s.largest_peer && not (mem id s.available)

unfoldable pub is_closed : Session → ℕ → Bool
unfolding is_open is_taken
is_closed s id = if is_open s id then false else is_taken s id

unfoldable pub num_open_incoming : Session → ℕ
num_open_incoming s = s.num_incoming - s.num_draining + s.num_locally_closed

abbrev pub count_draining : List Stream → ℕ
count_draining [] = 0
count_draining (t ∷ ts) = (if t.draining then 1 else 0) + count_draining ts

unfoldable pub num_open_outgoing : Session → ℕ
num_open_outgoing s =
    length s.streams
    - s.num_incoming
    + (length s.locally_closed - s.num_locally_closed)
    - (count_draining s.streams - s.num_draining)

unfoldable pub max_available : Session → ℕ
max_available s = s.max_open_incoming * 10

-- CloseConnection; the session's streams end with it, which is left out.
unfoldable pub close_connection : Session → Session
close_connection s = record s { connected = false }

-- The map with the offset at the identifier.
unfoldable pub insert_locally_closed : List (ℕ × ℕ) → ℕ → ℕ → List (ℕ × ℕ)
insert_locally_closed m id offset = (id, offset) ∷ erase_key m id

-- CloseStreamInner up to OnClose; `t` is the stream. One that waits for acknowledgements is kept as a
-- zombie.
unfoldable pub take_out : Session → Stream → Bool → Session
unfolding insert_locally_closed is_incoming
take_out s t locally_reset =
    let t' : Stream = record t { rst_sent = locally_reset || t.rst_sent; closed = true } in
    record s {
      zombies = if t.waiting_for_acks then t' ∷ s.zombies else s.zombies;
      closed_streams =
          if t.waiting_for_acks then s.closed_streams else s.closed_streams ++ (t' ∷ []);
      locally_closed =
          if t.has_final_offset
          then s.locally_closed
          else insert_locally_closed s.locally_closed t.id t.highest_offset;
      num_locally_closed =
          if not t.has_final_offset && is_incoming s t.id
          then s.num_locally_closed + 1
          else s.num_locally_closed;
      streams = erase_stream s.streams t.id;
      num_incoming = if is_incoming s t.id then s.num_incoming - 1 else s.num_incoming;
      num_draining =
          if t.draining && is_incoming s t.id then s.num_draining - 1 else s.num_draining;
    }

-- PuicStream::OnClose calls the stream's delegate. QuicStream::OnClose, which closes both sides of the
-- stream and may send a RST_STREAM frame for it, changes none of the maps any more.
unfoldable pub close_found : Session → Option Stream → Bool → Option Session
unfolding take_out
close_found s none locally_reset = some s
close_found s (some t) locally_reset =
    if t.delegate then some (take_out s t locally_reset) else none

unfoldable pub close_stream_inner : Session → ℕ → Bool → Option Session
unfolding close_found
close_stream_inner s id locally_reset = close_found s (find_stream s.streams id) locally_reset

-- PuicSessionBase::CloseStream.
unfoldable pub close_stream : Session → ℕ → Option Session
unfolding is_closed close_stream_inner
close_stream s id =
    if is_closed s id
    then some s
    else close_stream_inner (record s { registered = remove_id id s.registered }) id false

unfoldable pub send_rst_stream : Session → ℕ → Option Session
unfolding close_stream_inner
send_rst_stream s id =
    if id == crypto_stream_id
    then some s
    else close_stream_inner (if s.connected then record s { resets = id ∷ s.resets } else s) id true

-- PuicSessionBase::ResetStream, by CancelStream: the stream of an open identifier is there already.
unfoldable pub cancel_stream : Session → ℕ → Option Session
unfolding is_open send_rst_stream
cancel_stream s id = if not (is_open s id) then some s else send_rst_stream s id

-- OnIncomingStream of PuicServerConn and of PuicClientConn: the stream is unwanted.
unfoldable pub on_incoming_stream : Session → ℕ → Option Session
unfolding cancel_stream
on_incoming_stream s id = cancel_stream s id

abbrev pub map_option {ℓ κ} : {A : Type ℓ} {B : Type κ} → (A → B) → Option A → Option B
map_option f none = none
map_option f (some a) = some (f a)

-- What CreateDataStream does to the session once encryption is established.
unfoldable pub register_stream : Session → ℕ → Option Session
unfolding is_incoming on_incoming_stream
register_stream s id =
    let s1 : Session = record s { registered = id ∷ s.registered } in
    if is_incoming s id && not (id == preset_stream_id) then on_incoming_stream s1 id else some s1

unfoldable pub activate_stream : Session → Stream → Session
unfolding is_incoming
activate_stream s t = record s {
  streams = t ∷ erase_stream s.streams t.id;
  num_incoming = if is_incoming s t.id then s.num_incoming + 1 else s.num_incoming;
}

-- CreateDataStream, then ActivateDataStream with its result.
unfoldable pub create_data_stream : Session → ℕ → Option (Option Stream × Session)
unfolding register_stream activate_stream
create_data_stream s id =
    if not s.encrypted
    then some (none, s)
    else map_option (λ u. (some (stream id), activate_stream u (stream id))) (register_stream s id)

-- The loop of MaybeIncreaseLargestPeerStreamId; `fuel` bounds its rounds.
unfoldable pub insert_available : ℕ → ℕ → ℕ → List ℕ → List ℕ
insert_available zero from id available = available
insert_available (suc fuel) from id available =
    let rest : List ℕ =
      insert_available fuel (from + 2) id
        (if mem from available then available else from ∷ available) in
    if ltb from id then rest else available

-- The count is in 32 bits.
unfoldable pub additional_available : ℕ → ℕ → ℕ
additional_available id largest = ((id - largest) / 2 + 2 ^ 32 - 1) % 2 ^ 32

unfoldable pub maybe_increase : Session → ℕ → Bool × Session
unfolding additional_available insert_available max_available close_connection
maybe_increase s id =
    if leb id s.largest_peer
    then (true, s)
    else if ltb (max_available s) (length s.available + additional_available id s.largest_peer)
    then (false, close_connection s)
    else (
      true,
      record s {
        available = insert_available id (s.largest_peer + 2) id s.available;
        largest_peer = id;
      },
    )

-- The end of GetOrCreateDynamicStream.
unfoldable pub open_incoming : Bool × Session → ℕ → Option (Option Stream × Session)
unfolding num_open_incoming send_rst_stream create_data_stream
open_incoming (false, s) id = some (none, s)
open_incoming (true, s) id =
    if leb s.max_open_incoming (num_open_incoming s)
    then map_option (λ u. (none, u)) (send_rst_stream s id)
    else create_data_stream s id

unfoldable pub create_missing : Session → ℕ → Option (Option Stream × Session)
unfolding is_closed is_incoming close_connection maybe_increase open_incoming
create_missing s id =
    if is_closed s id
    then some (none, s)
    else if not (is_incoming s id)
    then some (none, close_connection s)
    else open_incoming (maybe_increase (record s { available = remove_id id s.available }) id) id

unfoldable pub get_found : Session → ℕ → Option Stream → Option (Option Stream × Session)
unfolding create_missing
get_found s id none = create_missing s id
get_found s id (some t) = some (some t, s)

unfoldable pub get_or_create_dynamic_stream : Session → ℕ → Option (Option Stream × Session)
unfolding get_found
get_or_create_dynamic_stream s id = get_found s id (find_stream s.streams id)

-- PuicStream::OnDataAvailable.
unfoldable pub on_data_available : Session → Stream → Option Session
on_data_available s t = if t.closed || t.delegate then some s else none

-- OnFinalByteOffsetReceived; `violates` says that the flow controller closes the connection.
unfoldable pub on_final_byte_offset : Session → ℕ → Bool → Session
unfolding is_incoming close_connection
on_final_byte_offset s id violates =
    if not (has_key s.locally_closed id)
    then s
    else if violates
    then close_connection s
    else record s {
      locally_closed = erase_key s.locally_closed id;
      num_locally_closed =
          if is_incoming s id then s.num_locally_closed - 1 else s.num_locally_closed;
    }

-- A FIN whose stream is not there may give the final offset of one that was closed before.
unfoldable pub without_stream : Session → ℕ → Bool → Bool → Session
unfolding on_final_byte_offset
without_stream s id fin violates = if fin then on_final_byte_offset s id violates else s

unfoldable pub deliver : ℕ → Bool → Bool → Bool → Option (Option Stream × Session) → Option Session
unfolding on_data_available without_stream
deliver id fin violates readable none = none
deliver id fin violates readable (some (none, s)) = some (without_stream s id fin violates)
deliver id fin violates readable (some (some t, s)) =
    if readable then on_data_available s t else some s

-- OnStreamFrame; `fin` says that the frame ends its stream, `violates` that its end is beyond what the
-- session allows, and `readable` that the frame makes the sequencer call OnDataAvailable. What else the
-- stream does with a frame are changes of the stream. The crypto stream is the only static one.
unfoldable pub on_stream_frame : Session → ℕ → Bool → Bool → Bool → Option Session
unfolding get_or_create_dynamic_stream deliver close_connection
on_stream_frame s id fin violates readable =
    if id == 0
    then some (close_connection s)
    else if id == crypto_stream_id
    then some (if fin then close_connection s else s)
    else deliver id fin violates readable (get_or_create_dynamic_stream s id)

-- CreateOutgoingDynamicStream: the identifier is taken first.
unfoldable pub create_outgoing : Session → Option (Option Stream × Session)
unfolding create_data_stream
create_outgoing s =
    create_data_stream (record s { next_outgoing = (s.next_outgoing + 2) % 2 ^ 32 }) s.next_outgoing

unfoldable pub create_stream : Session → Option (Option Stream × Session)
unfolding num_open_outgoing create_outgoing
create_stream s =
    if leb s.max_open_outgoing (num_open_outgoing s) then some (none, s) else create_outgoing s

abbrev pub delegate_found : List Stream → Option Stream → List Stream
delegate_found ts none = ts
delegate_found ts (some t) = replace_stream ts (record t { delegate = true })

-- PuicStream::SetDelegate.
unfoldable pub set_delegate : Session → ℕ → Session
set_delegate s id = record s { streams = delegate_found s.streams (find_stream s.streams id) }

abbrev pub become_preset : Option (Option Stream × Session) → Option Session
become_preset none = none
become_preset (some (none, s)) = none
become_preset (some (some t, s)) = some (set_delegate (record s { preset = some t.id }) t.id)

-- OnCryptoHandshakeEvent with HANDSHAKE_CONFIRMED, and OnHandshaked of the connection: the preset
-- stream gets its delegate.
unfoldable pub on_handshake_confirmed : Session → Bool → Option Session
unfolding create_data_stream create_outgoing set_delegate
on_handshake_confirmed s server = become_preset (
    if server
    then create_data_stream (record s { largest_peer = preset_stream_id }) preset_stream_id
    else create_outgoing s)

abbrev pub drain_found : Session → Option Stream → Session
drain_found s none = s
drain_found s (some t) = if t.draining then s else record s {
  streams = replace_stream s.streams (record t { draining = true });
  num_draining = if is_incoming s t.id then s.num_draining + 1 else s.num_draining;
}

unfoldable pub stream_draining : Session → ℕ → Session
unfolding is_incoming
stream_draining s id = drain_found s (find_stream s.streams id)
