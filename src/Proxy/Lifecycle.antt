-- ===== src/Proxy/Lifecycle.antt =====
-- A job is cleaned up once and its TCP connection freed once, whatever happens in which order.
use puic.Prelude.{ℕ, ◌≡◌, arith, Bool, true, false, not, ◌&&◌, ◌||◌, List, if◌then◌else◌, if-cases}
use puic.Prelude.{[], ◌++◌, length, take, ◌∙◌}
use puic.Proxy.World.{
  World, with_bytes, with_fin, after_bytes, after_read, accepted, Run, here, next,
}
use puic.Proxy.World.{with_reset, puic_reset}
use puic.Proxy.World.{Step, connected, tcp_bytes, tcp_eof, tcp_read_error, tcp_written, tcp_shut}
use puic.Proxy.World.{tcp_closed, puic_bytes, puic_fin, puic_can_write, puic_disconnected}
use puic.Proxy.{ProxyJob, PuicConn, start_job, clean, start_read, stop_read, write_tcp}
use puic.Proxy.{
  shutdown_tcp, conn_write, when_dropped, uv_close_once, mark_consumed, on_puic_disconnected,
}
use puic.Proxy.Handlers.{on_uv_connect, on_uv_read, on_uv_read_eof, on_uv_read_error, on_uv_write}
use puic.Proxy.Handlers.{on_uv_shutdown, on_uv_close, on_puic_can_read, on_puic_can_write}
use puic.Proxy.Handlers.{may_puic_to_tcp, may_tcp_to_puic}

-- The pointers of the job go together; a job that was cleaned up has a connection that closes.
pub record IsSound (j : ProxyJob) : Type 0 where
  pub src : j.has_src ≡ j.running
  pub dst : j.has_dst ≡ j.running
  pub attached : j.attached ≡ j.running
  pub cleaned : j.cleanings ≡ (if j.running then 0 else 1)
  pub closed : j.tcp.closed ≡ not j.running
  pub closing : (j.running || j.tcp.uv_closing) ≡ true
  pub uvclosed : (not j.tcp.uvclosed || j.tcp.uv_closing) ≡ true
  pub freed : j.tcp.deletes ≡ (if j.tcp.closed && j.tcp.uvclosed then 1 else 0)

clean-IsSound : {j : ProxyJob} → IsSound j → IsSound (clean j)
unfolding clean
clean-IsSound s = ground arith

start_read-IsSound : {j : ProxyJob} (refused : Bool) → IsSound j → IsSound (start_read j refused)
unfolding start_read
start_read-IsSound {j} refused s = ground (arith, clean-IsSound s)

stop_read-IsSound : {j : ProxyJob} → IsSound j → IsSound (stop_read j)
unfolding stop_read
stop_read-IsSound s = ground arith

write_tcp-IsSound :
    {j : ProxyJob} (bytes : List ℕ) (refused : Bool)
    → IsSound j
    → IsSound (write_tcp j bytes refused)
unfolding write_tcp
write_tcp-IsSound {j} bytes refused s = ground (arith, clean-IsSound s)

shutdown_tcp-IsSound : {j : ProxyJob} → IsSound j → IsSound (shutdown_tcp j)
unfolding shutdown_tcp
shutdown_tcp-IsSound s = ground arith

on_puic_disconnected-IsSound : {j : ProxyJob} → IsSound j → IsSound (on_puic_disconnected j)
unfolding on_puic_disconnected
on_puic_disconnected-IsSound {j} s = ground (arith, clean-IsSound s)

-- What becomes of the stream is no matter here.
with_conn-IsSound :
    {j : ProxyJob} (conn : PuicConn) → IsSound j → IsSound (record j { conn = conn })
with_conn-IsSound conn s = ground arith

when_dropped-IsSound : {j : ProxyJob} (drops : Bool) → IsSound j → IsSound (when_dropped drops j)
when_dropped-IsSound true s = on_puic_disconnected-IsSound s
when_dropped-IsSound false s = s

with_bytes-IsSound : {j : ProxyJob} (bytes : List ℕ) → IsSound j → IsSound (with_bytes j bytes)
unfolding with_bytes
with_bytes-IsSound bytes s = with_conn-IsSound _ s

with_fin-IsSound : {j : ProxyJob} → IsSound j → IsSound (with_fin j)
unfolding with_fin
with_fin-IsSound s = with_conn-IsSound _ s

conn_write-IsSound :
    {j : ProxyJob} (bytes : List ℕ) (fin drops : Bool)
    → IsSound j
    → IsSound (conn_write j bytes fin drops)
unfolding conn_write
conn_write-IsSound {j} bytes fin drops s =
    if-cases IsSound (j.conn.fin_written || j.conn.was_reset) (λ t. s)
      (λ f. when_dropped-IsSound drops (with_conn-IsSound _ s))

mark_consumed-IsSound :
    {j : ProxyJob} (len : ℕ) (drops : Bool) → IsSound j → IsSound (mark_consumed j len drops)
unfolding mark_consumed
mark_consumed-IsSound len drops s = when_dropped-IsSound drops (with_conn-IsSound _ s)

may_puic_to_tcp-IsSound :
    {j : ProxyJob} (amount : ℕ) (refused : Bool)
    → IsSound j
    → IsSound (may_puic_to_tcp j amount refused)
unfolding may_puic_to_tcp
may_puic_to_tcp-IsSound {j} amount refused s =
    ground (arith, shutdown_tcp-IsSound s, write_tcp-IsSound (take amount j.conn.unread) refused s)

may_tcp_to_puic-IsSound :
    {j : ProxyJob} (buffered : ℕ) (refused : Bool)
    → IsSound j
    → IsSound (may_tcp_to_puic j buffered refused)
unfolding may_tcp_to_puic
may_tcp_to_puic-IsSound {j} buffered refused s =
    ground (arith, stop_read-IsSound s, start_read-IsSound refused s)

on_uv_read-IsSound :
    {j : ProxyJob} (bytes : List ℕ) (buffered : ℕ) (drops refused : Bool)
    → IsSound j
    → IsSound (on_uv_read j bytes buffered drops refused)
unfolding on_uv_read
on_uv_read-IsSound {j} bytes buffered drops refused s =
    let w = conn_write-IsSound bytes false drops s in
    if-cases IsSound j.tcp.uv_closing (λ t. s)
      (λ f.
        if-cases IsSound (not (conn_write j bytes false drops).running) (λ t. w)
          (λ g. may_tcp_to_puic-IsSound buffered refused w))

-- The end of the input, on a connection not yet closed by libuv.
eof-IsSound :
    {j : ProxyJob}
    → IsSound j
    → (j.tcp.uvclosed ≡ false)
    → let t = record j.tcp { reading = false; readeof = true } in
      IsSound (record j { tcp = if t.writeof then uv_close_once t else t })
unfolding uv_close_once
eof-IsSound s u = ground arith

on_uv_write-IsSound :
    {j : ProxyJob} (failed drops : Bool) (amount : ℕ) (refused : Bool)
    → IsSound j
    → IsSound (on_uv_write j failed drops amount refused)
unfolding on_uv_write
on_uv_write-IsSound {j} failed drops amount refused s =
    let j' : ProxyJob = record j { tcp = record j.tcp { writing = false; flying = [] } } in
    let w : IsSound j' = ground arith in
    let m = mark_consumed-IsSound (length j.tcp.flying) drops w in
    if-cases IsSound j.tcp.uv_closing (λ t. s)
      (λ f.
        if-cases IsSound failed (λ t. clean-IsSound s)
          (λ g.
            if-cases IsSound (not (mark_consumed j' (length j.tcp.flying) drops).running) (λ t. m)
              (λ h. may_puic_to_tcp-IsSound amount refused m)))

on_uv_shutdown-IsSound :
    {j : ProxyJob} (failed : Bool) → IsSound j → IsSound (on_uv_shutdown j failed)
unfolding on_uv_shutdown
on_uv_shutdown-IsSound {j} failed s = ground (arith, clean-IsSound s)

on_uv_close-IsSound :
    {j : ProxyJob}
    → IsSound j
    → j.tcp.uv_closing ≡ true
    → j.tcp.uvclosed ≡ false
    → IsSound (record j { tcp = on_uv_close j.tcp })
unfolding on_uv_close
on_uv_close-IsSound s c u = ground arith

clean-uvclosed : (j : ProxyJob) → (clean j).tcp.uvclosed ≡ j.tcp.uvclosed
unfolding clean
clean-uvclosed j = ground arith

conn_write-uvclosed :
    (j : ProxyJob) (bytes : List ℕ) (fin drops : Bool)
    → (conn_write j bytes fin drops).tcp.uvclosed ≡ j.tcp.uvclosed
unfolding conn_write on_puic_disconnected
conn_write-uvclosed j bytes fin drops =
    let c : PuicConn = record j.conn { written = j.conn.written ++ bytes; fin_written = fin } in
    ground (arith, clean-uvclosed (record j { conn = c }))

on_uv_read_eof-IsSound :
    {j : ProxyJob} (drops : Bool) → IsSound j → IsSound (on_uv_read_eof j drops)
unfolding on_uv_read_eof
on_uv_read_eof-IsSound {j} drops s =
    if-cases IsSound j.tcp.uv_closing (λ t. s)
      (λ f.
        eof-IsSound (conn_write-IsSound [] true drops s)
          (conn_write-uvclosed j [] true drops ∙ ground (arith, s)))

Step-IsSound : {w x : World} → Step w x → IsSound w.job → IsSound x.job
Step-IsSound {w} (connected failed refused) s =
    unfold on_uv_connect in ground (arith, clean-IsSound s, start_read-IsSound refused s)
Step-IsSound (tcp_bytes bytes buffered drops refused r c) s =
    unfold after_read in on_uv_read-IsSound bytes buffered drops refused s
Step-IsSound (tcp_eof drops r) s = on_uv_read_eof-IsSound drops s
Step-IsSound tcp_read_error s = unfold on_uv_read_error in ground (arith, clean-IsSound s)
Step-IsSound (tcp_written failed drops amount refused r a) s =
    on_uv_write-IsSound failed drops amount refused s
Step-IsSound (tcp_shut failed r q) s = on_uv_shutdown-IsSound failed s
Step-IsSound (tcp_closed c u) s = on_uv_close-IsSound s c u
Step-IsSound {w} (puic_bytes bytes amount refused f l a) s =
    unfold after_bytes on_puic_can_read in
    ground (
      arith,
      may_puic_to_tcp-IsSound amount refused (with_bytes-IsSound bytes s),
      with_bytes-IsSound bytes s,
    )
Step-IsSound {w} (puic_fin amount refused l a) s =
    unfold on_puic_can_read in
    ground (arith, may_puic_to_tcp-IsSound amount refused (with_fin-IsSound s), with_fin-IsSound s)
Step-IsSound (puic_can_write remain refused) s =
    unfold on_puic_can_write in ground (arith, may_tcp_to_puic-IsSound remain refused s)
Step-IsSound puic_reset s = unfold with_reset in with_conn-IsSound _ s
Step-IsSound puic_disconnected s = on_puic_disconnected-IsSound s

pub Run-IsSound : {v w : World} → Run v w → IsSound v.job → IsSound w.job
Run-IsSound here s = s
Run-IsSound (next r st) s = Step-IsSound st (Run-IsSound r s)

pub accepted-IsSound : IsSound accepted.job
unfolding start_job
accepted-IsSound = ground arith

-- However the callbacks come, a job is in the list of jobs to delete exactly once after it has stopped
-- and never before, its TCP connection is freed exactly once, when the job has stopped and libuv has
-- closed the socket, and until it stops the job has both connections and hears from both.
pub cleaned_once :
    {w : World}
    → Run accepted w
    → (w.job.cleanings ≡ (if w.job.running then 0 else 1))
      × (w.job.tcp.deletes ≡ (if not w.job.running && w.job.tcp.uvclosed then 1 else 0))
      × (w.job.has_src ≡ w.job.running)
      × (w.job.has_dst ≡ w.job.running)
      × (w.job.attached ≡ w.job.running)
cleaned_once {w} r = let s = Run-IsSound r accepted-IsSound in ground (arith, s)

-- A job that has stopped takes no more callbacks: nothing it does, and nothing is written to either
-- side.
pub stopped_is_quiet :
    {w x : World}
    → IsSound w.job
    → w.job.running ≡ false
    → Step w x
    → (x.job.running ≡ false)
      × (x.job.cleanings ≡ w.job.cleanings)
      × (x.job.conn.written ≡ w.job.conn.written)
      × (x.job.tcp.sent ≡ w.job.tcp.sent)
stopped_is_quiet s n (connected failed refused) = unfold on_uv_connect in ground (arith, s, n)
stopped_is_quiet s n (tcp_bytes bytes buffered drops refused r c) =
    unfold after_read on_uv_read in ground (arith, s, n)
stopped_is_quiet s n (tcp_eof drops r) = unfold on_uv_read_eof in ground (arith, s, n)
stopped_is_quiet s n tcp_read_error = unfold on_uv_read_error in ground (arith, s, n)
stopped_is_quiet s n (tcp_written failed drops amount refused r a) =
    unfold on_uv_write in ground (arith, s, n)
stopped_is_quiet s n (tcp_shut failed r q) = unfold on_uv_shutdown in ground (arith, s, n)
stopped_is_quiet s n (tcp_closed c u) = unfold on_uv_close in ground (arith, s, n)
stopped_is_quiet s n (puic_bytes bytes amount refused f l a) =
    unfold after_bytes with_bytes on_puic_can_read in ground (arith, s, n)
stopped_is_quiet s n (puic_fin amount refused l a) =
    unfold with_fin on_puic_can_read in ground (arith, s, n)
stopped_is_quiet s n (puic_can_write remain refused) =
    unfold on_puic_can_write in ground (arith, s, n)
stopped_is_quiet s n puic_reset = unfold with_reset in ground (arith, s, n)
stopped_is_quiet s n puic_disconnected = unfold on_puic_disconnected in ground (arith, s, n)
