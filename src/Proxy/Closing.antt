-- ===== src/Proxy/Closing.antt =====
-- A socket that closes takes no more bytes, whatever its callbacks do.
use puic.Prelude.{ℕ, ◌≡◌, sym, ap, arith, Bool, true, ◌||◌, List}
use puic.Prelude.{◌++◌, ◌∙◌, append_assoc, if-cases}
use puic.Proxy.{ProxyJob, clean, on_puic_disconnected, write_tcp, shutdown_tcp}
use puic.Proxy.{start_read, stop_read}
use puic.Proxy.Handlers.{
  on_uv_connect, on_uv_read_eof, on_uv_read_error, on_uv_write, on_uv_shutdown,
}
use puic.Proxy.Handlers.{on_uv_close, on_puic_can_read, on_puic_can_write, may_puic_to_tcp}
use puic.Proxy.Handlers.{may_tcp_to_puic}
use puic.Proxy.World.{World, with_bytes, with_fin, after_bytes}
use puic.Proxy.World.{puic_reset}
use puic.Proxy.Resets.{Reset, with_reset-Reset}
use puic.Prelude.{◌⊎◌, inl, inr, [], append-nil}
use puic.Proxy.World.{Step, connected, tcp_bytes, tcp_eof, tcp_read_error, tcp_written, tcp_shut}
use puic.Proxy.World.{tcp_closed, puic_bytes, puic_fin, puic_can_write, puic_disconnected}
use puic.Proxy.Pipe.{Closed}

-- Nothing that the job does opens a closing socket or sends on it.
clean-Closed_still :
    {j : ProxyJob} {out back : List ℕ} → Closed j out back → Closed (clean j) out back
unfolding clean
clean-Closed_still {j} c = ground (arith, c)

start_read-Closed :
    {j : ProxyJob} {out back : List ℕ} (refused : Bool)
    → Closed j out back
    → Closed (start_read j refused) out back
unfolding start_read
start_read-Closed {j} {out} {back} refused c =
    if-cases (λ r. Closed r out back) (j.tcp.reading || j.tcp.readeof) (λ t. c)
      (λ f.
        if-cases (λ r. Closed r out back) refused (λ t. clean-Closed_still c)
          (λ g. ground (arith, c)))

may_tcp_to_puic-Closed :
    {j : ProxyJob} {out back : List ℕ} (buffered : ℕ) (refused : Bool)
    → Closed j out back
    → Closed (may_tcp_to_puic j buffered refused) out back
unfolding may_tcp_to_puic stop_read
may_tcp_to_puic-Closed {j} buffered refused c = ground (arith, start_read-Closed refused c, c)

may_puic_to_tcp-Closed :
    {j : ProxyJob} {out back : List ℕ} (amount : ℕ) (refused : Bool)
    → j.attached ≡ true
    → Closed j out back
    → may_puic_to_tcp j amount refused ≡ j
unfolding may_puic_to_tcp write_tcp shutdown_tcp
may_puic_to_tcp-Closed {j} amount refused a c = ground (arith, c.quiet, a)

on_puic_can_read-Closed :
    {j : ProxyJob} {out back : List ℕ} (amount : ℕ) (refused : Bool)
    → Closed j out back
    → Closed (on_puic_can_read j amount refused) out back
unfolding on_puic_can_read
on_puic_can_read-Closed {j} {out} {back} amount refused c =
    if-cases (λ r. Closed r out back) j.attached
      (λ t. rw (may_puic_to_tcp-Closed amount refused t c) c) (λ f. c)

with_bytes-Closed :
    {j : ProxyJob} {out back : List ℕ} (bytes : List ℕ)
    → Closed j out back
    → Closed (with_bytes j bytes) (out ++ bytes) back
unfolding with_bytes
with_bytes-Closed {j} bytes c = record {
  closing = c.closing;
  quiet = c.quiet;
  rest = c.rest ++ bytes;
  queued = sym (append_assoc j.tcp.sent c.rest bytes) ∙ ap (λ (xs : List ℕ). xs ++ bytes) c.queued;
  echoed = c.echoed;
}

with_fin-Closed :
    {j : ProxyJob} {out back : List ℕ} → Closed j out back → Closed (with_fin j) out back
unfolding with_fin
with_fin-Closed {j} c = ground (arith, c)

-- Or the peer resets the stream.
pub Step-Closed :
    {w x : World}
    → Step w x
    → Closed w.job w.from_puic w.from_tcp
    → Closed x.job x.from_puic x.from_tcp ⊎ Reset x.job x.from_puic x.from_tcp
Step-Closed {w} (connected failed refused) c = inl (unfold on_uv_connect in ground (arith, c))
Step-Closed (tcp_bytes bytes buffered drops refused r q) c = ground (arith, c, q)
Step-Closed (tcp_eof drops r) c = inl (unfold on_uv_read_eof in ground (arith, c))
Step-Closed tcp_read_error c = inl (unfold on_uv_read_error in ground (arith, c))
Step-Closed (tcp_written failed drops amount refused r a) c =
    inl (unfold on_uv_write in ground (arith, c))
Step-Closed (tcp_shut failed r q) c = inl (unfold on_uv_shutdown in ground (arith, c))
Step-Closed (tcp_closed q u) c = inl (unfold on_uv_close in ground (arith, c))
Step-Closed {w} (puic_bytes bytes amount refused f l a) c =
    inl (unfold after_bytes in on_puic_can_read-Closed amount refused (with_bytes-Closed bytes c))
Step-Closed (puic_fin amount refused l a) c =
    inl (on_puic_can_read-Closed amount refused (with_fin-Closed c))
Step-Closed {w} (puic_can_write remain refused) c = inl (
    unfold on_puic_can_write in
    if-cases (λ r. Closed r w.from_puic w.from_tcp) w.job.attached
      (λ t. may_tcp_to_puic-Closed remain refused c) (λ f. c))
Step-Closed {w} puic_reset c =
    inr (with_reset-Reset w.job c.rest [] c.queued (append-nil w.job.conn.written ∙ c.echoed))
Step-Closed {w} puic_disconnected c = inl (
    unfold on_puic_disconnected in
    if-cases (λ r. Closed r w.from_puic w.from_tcp) w.job.attached (λ t. clean-Closed_still c)
      (λ f. c))
