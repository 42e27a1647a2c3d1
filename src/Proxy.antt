-- ===== src/Proxy.antt =====
-- The proxy's jobs: ProxyJob and its TCPConn in puicproxy/src/puic_proxy.cc, over a connection of
-- puicserver/src/puic_server_lib.cc. A job joins the stream of a PUIC connection to a TCP connection.
-- What libuv and the session of the connection answer is an input: whether a call is refused, and
-- whether the session closes in the middle of a call (`drops`).
pub mod Handlers
pub mod World
pub mod Lifecycle
pub mod Pipe
pub mod Delivery
pub mod Ending
pub mod Closing
pub mod Resets
pub mod Fifo
mod Examples
use puic.Prelude.{
  ℕ, ◌+◌, ltb, leb, if◌then◌else◌, Bool, true, false, not, ◌&&◌, ◌||◌, List, [], ◌∷◌, ◌++◌,
}
use puic.Prelude.{length, take, drop}

-- TCPConn. `uv_closing` is libuv's: uv_close was called. `deletes` counts `delete this`. `flying` are
-- the bytes of the write in progress, of which m_write.data has the length, `sent` all that was
-- handed to libuv, in order, and `shutting` says that uv_shutdown was called.
pub record TcpConn : Type 0 where
  pub reading : Bool
  pub readeof : Bool
  pub writing : Bool
  pub writeof : Bool
  pub closed : Bool
  pub uvclosed : Bool
  pub uv_closing : Bool
  pub deletes : ℕ
  pub flying : List ℕ
  pub sent : List ℕ
  pub shutting : Bool

-- The preset stream of the PUIC connection: what the peer sent and MarkConsumed has not taken, whether
-- its FIN has come, what was written to the peer, and whether the peer has reset the stream, which
-- closes it for reading and writing.
pub record PuicConn : Type 0 where
  pub unread : List ℕ
  pub fin_received : Bool
  pub written : List ℕ
  pub fin_written : Bool
  pub was_reset : Bool

-- `has_src` and `has_dst` say that m_srcConn and m_dstConn are not null, `attached` that the data of
-- the connection is this job. `cleanings` counts its entries in m_cleanJobs.
pub record ProxyJob : Type 0 where
  pub running : Bool
  pub has_src : Bool
  pub has_dst : Bool
  pub attached : Bool
  pub cleanings : ℕ
  pub tcp : TcpConn
  pub conn : PuicConn

unfoldable pub tcp_conn : TcpConn
tcp_conn = record {
  reading = false;
  readeof = false;
  writing = false;
  writeof = false;
  closed = false;
  uvclosed = false;
  uv_closing = false;
  deletes = 0;
  flying = [];
  sent = [];
  shutting = false;
}

-- The constructor, Start and TCPConn::Create, on the stream of a connection just accepted.
unfoldable pub start_job : PuicConn → ProxyJob
unfolding tcp_conn
start_job conn = record {
  running = true;
  has_src = true;
  has_dst = true;
  attached = true;
  cleanings = 0;
  tcp = tcp_conn;
  conn = conn;
}

abbrev pub is_empty : List ℕ → Bool
is_empty [] = true
is_empty (x ∷ xs) = false

unfoldable pub uv_close_once : TcpConn → TcpConn
uv_close_once t = if t.uv_closing then t else record t { uv_closing = true }

unfoldable pub close_tcp : TcpConn → TcpConn
unfolding uv_close_once
close_tcp t =
    if t.uvclosed
    then record t { closed = true; deletes = t.deletes + 1 }
    else uv_close_once (record t { closed = true })

unfoldable pub drop_src : ProxyJob → ProxyJob
drop_src j = if j.has_src then record j { attached = false; has_src = false } else j

unfoldable pub drop_dst : ProxyJob → ProxyJob
unfolding close_tcp
drop_dst j = if j.has_dst then record j { tcp = close_tcp j.tcp; has_dst = false } else j

unfoldable pub clean : ProxyJob → ProxyJob
unfolding drop_src drop_dst
clean j =
    if not j.running
    then j
    else let j' : ProxyJob = drop_dst (drop_src (record j { running = false })) in
      record j' { cleanings = j'.cleanings + 1 }

unfoldable pub start_read : ProxyJob → Bool → ProxyJob
unfolding clean
start_read j refused =
    if j.tcp.reading || j.tcp.readeof
    then j
    else if refused
    then clean j
    else record j { tcp = record j.tcp { reading = true } }

unfoldable pub stop_read : ProxyJob → ProxyJob
stop_read j =
    if not j.tcp.reading || j.tcp.readeof
    then j
    else record j { tcp = record j.tcp { reading = false } }

unfoldable pub write_tcp : ProxyJob → List ℕ → Bool → ProxyJob
unfolding clean
write_tcp j bytes refused =
    if j.tcp.writing || is_empty bytes || j.tcp.writeof
    then j
    else if refused
    then clean j
    else record j {
      tcp = record j.tcp { writing = true; flying = bytes; sent = j.tcp.sent ++ bytes };
    }

unfoldable pub shutdown_tcp : ProxyJob → ProxyJob
shutdown_tcp j = if j.tcp.writeof then j else record j { tcp = record j.tcp { shutting = true } }

-- OnPUICConnErr, through PUICSERVER_ConnData.
unfoldable pub on_puic_disconnected : ProxyJob → ProxyJob
unfolding clean
on_puic_disconnected j = if j.attached then clean j else j

abbrev pub when_dropped : Bool → ProxyJob → ProxyJob
when_dropped drops j = if drops then on_puic_disconnected j else j

-- PUICSERVER_ConnWrite; nothing is written after a FIN, and WriteOrBufferData drops what is written to a
-- stream that was reset.
unfoldable pub conn_write : ProxyJob → List ℕ → Bool → Bool → ProxyJob
unfolding on_puic_disconnected
conn_write j bytes fin drops =
    if j.conn.fin_written || j.conn.was_reset
    then j
    else when_dropped drops
        (record j { conn = record j.conn { written = j.conn.written ++ bytes; fin_written = fin } })

-- PUICSERVER_ConnMarkConsumed.
unfoldable pub mark_consumed : ProxyJob → ℕ → Bool → ProxyJob
unfolding on_puic_disconnected
mark_consumed j len drops =
    when_dropped drops (record j { conn = record j.conn { unread = drop len j.conn.unread } })
