-- ===== src/Proxy/World.antt =====
-- A job with what happens to it: the callbacks of libuv and of the session, in any order that they
-- allow, and what both sides have received (puicproxy/src/puic_proxy.cc).
use puic.Prelude.{ℕ, ◌<◌, ◌≡◌, Bool, true, false, List, [], ◌++◌}
use puic.Proxy.{ProxyJob, PuicConn, start_job, on_puic_disconnected}
use puic.Proxy.Handlers.{on_uv_connect, on_uv_read, on_uv_read_eof, on_uv_read_error, on_uv_write}
use puic.Proxy.Handlers.{on_uv_shutdown, on_uv_close, on_puic_can_read, on_puic_can_write}

-- `from_puic` and `from_tcp` are all bytes received, in order.
pub record World : Type 0 where
  pub job : ProxyJob
  pub from_puic : List ℕ
  pub from_tcp : List ℕ

abbrev pub with_job : World → ProxyJob → World
with_job w j = record w { job = j }

-- The stream of the connection has more bytes, or the peer's FIN.
unfoldable pub with_bytes : ProxyJob → List ℕ → ProxyJob
with_bytes j bytes = record j { conn = record j.conn { unread = j.conn.unread ++ bytes } }

unfoldable pub with_fin : ProxyJob → ProxyJob
with_fin j = record j { conn = record j.conn { fin_received = true } }

-- OnStreamReset: the stream forgets what was not read. The connection is told, and ignores it.
unfoldable pub with_reset : ProxyJob → ProxyJob
with_reset j = record j { conn = record j.conn { unread = []; was_reset = true } }

unfoldable pub after_bytes : World → List ℕ → ℕ → Bool → World
unfolding with_bytes on_puic_can_read
after_bytes w bytes amount refused = record w {
  job = on_puic_can_read (with_bytes w.job bytes) amount refused;
  from_puic = w.from_puic ++ bytes;
}

unfoldable pub after_read : World → List ℕ → ℕ → Bool → Bool → World
unfolding on_uv_read
after_read w bytes buffered drops refused = record w {
  job = on_uv_read w.job bytes buffered drops refused;
  from_tcp = w.from_tcp ++ bytes;
}

-- libuv reads only a socket that is read and not closing, completes a write only if there is one, a
-- shutdown only when no write is left, and a close once. The regions hold a byte at least, if there is
-- one, and the peer sends nothing after its FIN or its reset of the stream.
pub data Step (w : World) : World → Type 0 where
  connected : (failed refused : Bool) → Step w (with_job w (on_uv_connect w.job failed refused))
  tcp_bytes :
      (bytes : List ℕ) (buffered : ℕ) (drops refused : Bool)
      → w.job.tcp.reading ≡ true
      → w.job.tcp.uv_closing ≡ false
      → Step w (after_read w bytes buffered drops refused)
  tcp_eof :
      (drops : Bool) → w.job.tcp.reading ≡ true → Step w (with_job w (on_uv_read_eof w.job drops))
  tcp_read_error : Step w (with_job w (on_uv_read_error w.job))
  tcp_written :
      (failed drops : Bool) (amount : ℕ) (refused : Bool)
      → w.job.tcp.writing ≡ true
      → 0 < amount
      → Step w (with_job w (on_uv_write w.job failed drops amount refused))
  tcp_shut :
      (failed : Bool)
      → w.job.tcp.shutting ≡ true
      → w.job.tcp.writing ≡ false
      → Step w (with_job w (on_uv_shutdown w.job failed))
  tcp_closed :
      w.job.tcp.uv_closing ≡ true
      → w.job.tcp.uvclosed ≡ false
      → Step w (with_job w (record w.job { tcp = on_uv_close w.job.tcp }))
  puic_bytes :
      (bytes : List ℕ) (amount : ℕ) (refused : Bool)
      → w.job.conn.fin_received ≡ false
      → w.job.conn.was_reset ≡ false
      → 0 < amount
      → Step w (after_bytes w bytes amount refused)
  puic_fin :
      (amount : ℕ) (refused : Bool)
      → w.job.conn.was_reset ≡ false
      → 0 < amount
      → Step w (with_job w (on_puic_can_read (with_fin w.job) amount refused))
  puic_can_write :
      (remain : ℕ) (refused : Bool) → Step w (with_job w (on_puic_can_write w.job remain refused))
  puic_reset : Step w (with_job w (with_reset w.job))
  puic_disconnected : Step w (with_job w (on_puic_disconnected w.job))

pub data Run (v : World) : World → Type 0 where
  here : Run v v
  next : {w x : World} → Run v w → Step w x → Run v x

abbrev pub new_conn : PuicConn
new_conn = record {
  unread = [];
  fin_received = false;
  written = [];
  fin_written = false;
  was_reset = false;
}

-- A job at its start.
abbrev pub accepted : World
accepted = record { job = start_job new_conn; from_puic = []; from_tcp = [] }
