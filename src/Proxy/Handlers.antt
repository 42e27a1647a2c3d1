-- ===== src/Proxy/Handlers.antt =====
-- The callbacks of libuv and of the PUIC connection (puicproxy/src/puic_proxy.cc).
use puic.Prelude.{ℕ, ◌+◌, leb, if◌then◌else◌, Bool, true, false, not, ◌&&◌, List, [], length}
use puic.Prelude.{take}
use puic.Proxy.{TcpConn, ProxyJob, is_empty, uv_close_once, clean, start_read, stop_read}
use puic.Proxy.{write_tcp, shutdown_tcp, conn_write, mark_consumed}

abbrev pub writebuf_lower : ℕ
writebuf_lower = 4096

abbrev pub writebuf_upper : ℕ
writebuf_upper = 8192

-- `amount` is how many bytes the regions of PUICSERVER_ConnReadableRegions hold, if there are so many.
unfoldable pub may_puic_to_tcp : ProxyJob → ℕ → Bool → ProxyJob
unfolding write_tcp shutdown_tcp
may_puic_to_tcp j amount refused =
    let regions : List ℕ = take amount j.conn.unread in
    if j.tcp.writing
    then j
    else if is_empty regions && is_empty j.conn.unread && j.conn.fin_received
    then shutdown_tcp j
    else if is_empty regions
    then j
    else write_tcp j regions refused

unfoldable pub may_tcp_to_puic : ProxyJob → ℕ → Bool → ProxyJob
unfolding start_read stop_read
may_tcp_to_puic j buffered refused =
    if leb writebuf_upper buffered
    then stop_read j
    else if leb buffered writebuf_lower
    then start_read j refused
    else j

-- OnTCPConnBound; a connection that failed is cleaned up.
unfoldable pub on_uv_connect : ProxyJob → Bool → Bool → ProxyJob
unfolding clean start_read
on_uv_connect j failed refused =
    if j.tcp.uv_closing then j else if failed then clean j else start_read j refused

-- OnTCPConnRcvd. `buffered` is what the stream buffers after the write.
unfoldable pub on_uv_read : ProxyJob → List ℕ → ℕ → Bool → Bool → ProxyJob
unfolding conn_write may_tcp_to_puic
on_uv_read j bytes buffered drops refused =
    if j.tcp.uv_closing
    then j
    else let j' : ProxyJob = conn_write j bytes false drops in
      if not j'.running then j' else may_tcp_to_puic j' buffered refused

-- OnTCPConnEOF, and the end of a connection that was shut down before.
unfoldable pub on_uv_read_eof : ProxyJob → Bool → ProxyJob
unfolding conn_write uv_close_once
on_uv_read_eof j drops =
    if j.tcp.uv_closing
    then j
    else let j' : ProxyJob = conn_write j [] true drops in
      let t : TcpConn = record j'.tcp { reading = false; readeof = true } in
      record j' { tcp = if t.writeof then uv_close_once t else t }

unfoldable pub on_uv_read_error : ProxyJob → ProxyJob
unfolding clean
on_uv_read_error j = if j.tcp.uv_closing then j else clean j

-- OnTCPConnSent.
unfoldable pub on_uv_write : ProxyJob → Bool → Bool → ℕ → Bool → ProxyJob
unfolding clean mark_consumed may_puic_to_tcp
on_uv_write j failed drops amount refused =
    if j.tcp.uv_closing
    then j
    else if failed
    then clean j
    else let j' : ProxyJob = record j { tcp = record j.tcp { writing = false; flying = [] } } in
      let j'' : ProxyJob = mark_consumed j' (length j.tcp.flying) drops in
      if not j''.running then j'' else may_puic_to_tcp j'' amount refused

unfoldable pub on_uv_shutdown : ProxyJob → Bool → ProxyJob
unfolding clean uv_close_once
on_uv_shutdown j failed =
    if j.tcp.uv_closing
    then j
    else if failed
    then clean j
    else let t : TcpConn = record j.tcp { writing = false; writeof = true } in
      record j { tcp = if t.readeof then uv_close_once t else t }

unfoldable pub on_uv_close : TcpConn → TcpConn
on_uv_close t =
    let t' : TcpConn = record t {
      reading = false;
      readeof = true;
      writing = false;
      writeof = true;
      uvclosed = true;
    } in
    if t.closed then record t' { deletes = t.deletes + 1 } else t'

unfoldable pub on_puic_can_read : ProxyJob → ℕ → Bool → ProxyJob
unfolding may_puic_to_tcp
on_puic_can_read j amount refused = if j.attached then may_puic_to_tcp j amount refused else j

unfoldable pub on_puic_can_write : ProxyJob → ℕ → Bool → ProxyJob
unfolding may_tcp_to_puic
on_puic_can_write j remain refused = if j.attached then may_tcp_to_puic j remain refused else j
