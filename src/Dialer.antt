-- ===== src/Dialer.antt =====
-- The connections of PuicDialer and PuicClientConn (puicclient/src/puic_client.{h,cc}). The sending of
-- packets is in Udp. Whether the socket can be bound, which identifier a session draws and where its
-- connection is allocated are inputs.
pub mod Sound
pub mod Stopping
pub mod Lives
mod Examples
use puic.Prelude.{
  ℕ, zero, suc, ◌==◌, if◌then◌else◌, Bool, true, false, not, ◌&&◌, ◌||◌, List, [], ◌∷◌, ◌++◌,
  Option, none, some, length,
}
use puic.Wire.SessionId.{read_session_id}

-- PuicClientConn: its address and its session's identifier.
pub record ClientConn : Type 0 where
  pub address : ℕ
  pub session_id : ℕ

-- `crypto_config` and `socket` say that the pointers are not null, `delete_conns_alarm` that the alarm
-- is set. `conns` is the map from identifiers, `blocked_conns` the linked map from pointers in order of
-- insertion. `disconnected` are the calls of OnDisconnected.
pub record Dialer : Type 0 where
  pub crypto_config : Bool
  pub socket : Bool
  pub write_blocked : Bool
  pub conns : List ClientConn
  pub closed_conns : List ClientConn
  pub delete_conns_alarm : Bool
  pub blocked_conns : List ClientConn
  pub disconnected : List ClientConn

pub data DialerResult : Type 0 where
  success : DialerResult
  state_error : DialerResult
  udp_error : DialerResult

unfoldable pub dialer : Dialer
dialer = record {
  crypto_config = false;
  socket = false;
  write_blocked = true;
  conns = [];
  closed_conns = [];
  delete_conns_alarm = false;
  blocked_conns = [];
  disconnected = [];
}

abbrev pub is_nil : List ClientConn → Bool
is_nil [] = true
is_nil (c ∷ cs) = false

abbrev pub find_conn : List ClientConn → ℕ → Option ClientConn
find_conn [] id = none
find_conn (c ∷ cs) id = if c.session_id == id then some c else find_conn cs id

-- A map holds a key once, so all entries with the key are the one.
abbrev pub erase_id : List ClientConn → ℕ → List ClientConn
erase_id [] id = []
erase_id (c ∷ cs) id = if c.session_id == id then erase_id cs id else c ∷ erase_id cs id

abbrev pub erase_conn : List ClientConn → ClientConn → List ClientConn
erase_conn [] conn = []
erase_conn (c ∷ cs) conn =
    if c.address == conn.address then erase_conn cs conn else c ∷ erase_conn cs conn

-- The insertion does not move an entry that is there.
abbrev pub insert_conn : List ClientConn → ClientConn → List ClientConn
insert_conn [] conn = conn ∷ []
insert_conn (c ∷ cs) conn = if c.address == conn.address then c ∷ cs else c ∷ insert_conn cs conn

abbrev pub move_to_closed : Dialer → ClientConn → Option ClientConn → Dialer
move_to_closed d conn none = d
move_to_closed d conn (some c) = record d {
  delete_conns_alarm = d.delete_conns_alarm || is_nil d.closed_conns;
  closed_conns = d.closed_conns ++ (c ∷ []);
  conns = erase_id d.conns conn.session_id;
  blocked_conns = erase_conn d.blocked_conns conn;
}

unfoldable pub on_conn_closed : Dialer → ClientConn → Dialer
on_conn_closed d conn = move_to_closed d conn (find_conn d.conns conn.session_id)

-- PuicClientConn::OnClosed of a session.
unfoldable pub on_closed : Dialer → ClientConn → Dialer
unfolding on_conn_closed
on_closed d conn = on_conn_closed (record d { disconnected = d.disconnected ++ (conn ∷ []) }) conn

unfoldable pub on_conn_write_blocked : Dialer → ClientConn → Dialer
on_conn_write_blocked d conn = record d { blocked_conns = insert_conn d.blocked_conns conn }

unfoldable pub start : Dialer → Bool → DialerResult × Dialer
start d bound =
    if d.crypto_config
    then (state_error, d)
    else if not bound
    then (udp_error, record d { socket = false })
    else (
      success,
      record d {
        socket = true;
        write_blocked = false;
        delete_conns_alarm = false;
        crypto_config = true;
      },
    )

unfoldable pub close_front : Dialer → List ClientConn → Dialer
unfolding on_closed
close_front d [] = d
close_front d (c ∷ cs) = on_closed d c

-- The loop of stop, while there are connections: closing a session reports it and moves its connection.
unfoldable pub close_all : ℕ → Dialer → Dialer
close_all zero d = d
close_all (suc n) d = close_all n (close_front d d.conns)

abbrev pub clear_closed : Dialer → Dialer
clear_closed d = record d { closed_conns = [] }

unfoldable pub stop : Dialer → Dialer
unfolding close_all
stop d =
    if not d.crypto_config
    then d
    else let d' : Dialer =
        close_all (length d.conns)
          (record d { socket = false; write_blocked = true; delete_conns_alarm = false }) in
      record (clear_closed d') { crypto_config = false }

unfoldable pub delete_conns : Dialer → Bool → Dialer
unfolding stop
delete_conns d may_restart =
    let d' : Dialer = clear_closed d in if may_restart && is_nil d'.conns then stop d' else d'

-- DeleteConnsAlarm::OnAlarm.
unfoldable pub on_alarm : Dialer → Dialer
unfolding delete_conns
on_alarm d = delete_conns (record d { delete_conns_alarm = false }) true

-- The insertion into m_conns of an identifier that is there does nothing, and frees the connection.
abbrev pub add_conn : Dialer → ClientConn → Option ClientConn → Dialer
add_conn d conn none = record d { conns = conn ∷ d.conns }
add_conn d conn (some c) = d

abbrev pub is_success : DialerResult → Bool
is_success success = true
is_success state_error = false
is_success udp_error = false

unfoldable pub ensure_started : Dialer → Bool → DialerResult × Dialer
ensure_started d bound = if d.crypto_config then (success, d) else start d bound

-- `conn` is the connection that is allocated.
unfoldable pub create_conn : Dialer → ClientConn → Bool → Option ClientConn × Dialer
create_conn d conn bound =
    let (result, d') = ensure_started d bound in
    if not (is_success result)
    then (none, d')
    else (some conn, add_conn d' conn (find_conn d'.conns conn.session_id))

-- The connection whose session receives the packet.
unfoldable pub dispatch : Dialer → List ℕ → Option ClientConn
dispatch d packet =
    let id : ℕ = read_session_id packet (length packet) in
    if id == 0 then none else find_conn d.conns id

-- What OnTransportCanWrite of a session does: writes until the writer is blocked, reports that it is
-- blocked, closes.
pub record Reaction : Type 0 where
  pub fills : Bool
  pub blocks : Bool
  pub closes : Bool

unfoldable pub on_transport_can_write : Dialer → ClientConn → Reaction → Dialer
unfolding on_conn_write_blocked on_closed
on_transport_can_write d conn r =
    let d' : Dialer = if r.fills then record d { write_blocked = true } else d in
    let d'' : Dialer = if r.blocks then on_conn_write_blocked d' conn else d' in
    if r.closes then on_closed d'' conn else d''

abbrev pub wake_first : Dialer → List ClientConn → Reaction → Dialer
wake_first d [] r = d
wake_first d (c ∷ cs) r = on_transport_can_write (record d { blocked_conns = cs }) c r

-- A round of wakeup for each session that is called.
unfoldable pub wakeup : List Reaction → Dialer → Dialer
unfolding on_transport_can_write
wakeup [] d = d
wakeup (r ∷ rs) d =
    let d' : Dialer = wakeup rs (wake_first d d.blocked_conns r) in
    if is_nil d.blocked_conns || d.write_blocked then d else d'
