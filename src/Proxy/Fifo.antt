-- ===== src/Proxy/Fifo.antt =====
-- A job is two first-in first-out channels, however its callbacks come.
use puic.Prelude.{ℕ, ◌<◌, ◌≡◌, refl, sym, ap, arith, Bool, true, false, ◌||◌, List, []}
use puic.Prelude.{◌++◌, inl, inr, ◌∙◌, append_assoc, append-nil, if-cases}
use puic.Proxy.{ProxyJob, start_job}
use puic.Proxy.Handlers.{on_uv_connect, on_uv_read_error}
use puic.Proxy.Handlers.{on_puic_can_read, on_puic_can_write}
use puic.Proxy.World.{
  World, with_bytes, with_fin, after_bytes, after_read, accepted, Run, here, next,
}
use puic.Proxy.World.{puic_reset}
use puic.Proxy.Resets.{Reset, with_reset-Reset, Step-Reset}
use puic.Prelude.{◌⊎◌}
use puic.Proxy.World.{Step, connected, tcp_bytes, tcp_eof, tcp_read_error, tcp_written, tcp_shut}
use puic.Proxy.World.{tcp_closed, puic_bytes, puic_fin, puic_can_write, puic_disconnected}
use puic.Proxy.Pipe.{
  is_empty→nil, idle-unread, Open, IsServed, is_idle, clean-Closed, may_puic_to_tcp-Open,
}
use puic.Proxy.Delivery.{Serves, start_read-IsServed, may_tcp_to_puic-IsServed, on_uv_read-IsServed}
use puic.Proxy.Delivery.{on_puic_disconnected-Closed, on_uv_write-IsServed}
use puic.Proxy.Ending.{on_uv_read_eof-IsServed, on_uv_shutdown-IsServed}
use puic.Proxy.Closing.{Step-Closed}

-- The stream takes more bytes while the peer has sent no FIN.
with_bytes-Open :
    {j : ProxyJob} {out back : List ℕ} (bytes : List ℕ)
    → j.conn.fin_received ≡ false
    → Open j out back
    → Open (with_bytes j bytes) (out ++ bytes) back
unfolding with_bytes
with_bytes-Open {j} {out} bytes f o = record {
  closing = o.closing;
  uvclosed = o.uvclosed;
  running = o.running;
  dst = o.dst;
  src = o.src;
  attached = o.attached;
  rest = o.rest ++ bytes;
  queued = sym (append_assoc j.tcp.sent o.rest bytes) ∙ ap (λ (xs : List ℕ). xs ++ bytes) o.queued;
  unread = ap (λ (xs : List ℕ). xs ++ bytes) o.unread ∙ append_assoc j.tcp.flying o.rest bytes;
  busy = o.busy;
  shut = ground (arith, o.shut, f);
  fin = o.fin;
  reads = o.reads;
  echoed = o.echoed;
  live = o.live;
}

with_fin-Open : {j : ProxyJob} {out back : List ℕ} → Open j out back → Open (with_fin j) out back
unfolding with_fin
with_fin-Open {j} o = ground (arith, o)

on_puic_can_read-Open :
    {j : ProxyJob} {out back : List ℕ} (amount : ℕ) (refused : Bool)
    → 0 < amount
    → Open j out back
    → IsServed (on_puic_can_read j amount refused) out back
unfolding on_puic_can_read
on_puic_can_read-Open {j} {out} {back} amount refused a o =
    if-cases (λ r. IsServed r out back) j.attached (λ t. may_puic_to_tcp-Open amount refused a o)
      (λ f. ground (arith, f, o.attached))

-- A job serves both sides until the peer resets the stream.
abbrev Passes : World → Type 0
Passes w = Serves w ⊎ Reset w.job w.from_puic w.from_tcp

-- Every step but a reset.
Step-Open :
    {w x : World} → Step w x → Open w.job w.from_puic w.from_tcp → is_idle w.job ≡ true → Passes x
Step-Open {w} (connected failed refused) o i = inl (
    unfold on_uv_connect in
    if-cases (λ r. IsServed r w.from_puic w.from_tcp) w.job.tcp.uv_closing (λ t. inr (o, i))
      (λ f.
        if-cases (λ r. IsServed r w.from_puic w.from_tcp) failed (λ t. inl (clean-Closed o))
          (λ g. start_read-IsServed refused o i)))
Step-Open (tcp_bytes bytes buffered drops refused r c) o i =
    inl (unfold after_read in on_uv_read-IsServed bytes buffered drops refused r o i)
Step-Open (tcp_eof drops r) o i = inl (on_uv_read_eof-IsServed drops r o i)
Step-Open {w} tcp_read_error o i = inl (
    unfold on_uv_read_error in
    if-cases (λ r. IsServed r w.from_puic w.from_tcp) w.job.tcp.uv_closing (λ t. inr (o, i))
      (λ f. inl (clean-Closed o)))
Step-Open (tcp_written failed drops amount refused r a) o i =
    inl (on_uv_write-IsServed failed drops amount refused a o)
Step-Open (tcp_shut failed r q) o i = inl (on_uv_shutdown-IsServed failed r q o)
Step-Open (tcp_closed c u) o i = ground (arith, c, o)
Step-Open {w} (puic_bytes bytes amount refused f l a) o i =
    inl (unfold after_bytes in on_puic_can_read-Open amount refused a (with_bytes-Open bytes f o))
Step-Open (puic_fin amount refused l a) o i =
    inl (on_puic_can_read-Open amount refused a (with_fin-Open o))
Step-Open {w} (puic_can_write remain refused) o i = inl (
    unfold on_puic_can_write in
    if-cases (λ r. IsServed r w.from_puic w.from_tcp) w.job.attached
      (λ t. may_tcp_to_puic-IsServed remain refused o i) (λ f. inr (o, i)))
Step-Open {w} puic_reset o i =
    inr (with_reset-Reset w.job o.rest [] o.queued (append-nil w.job.conn.written ∙ o.echoed))
Step-Open puic_disconnected o i = inl (inl (on_puic_disconnected-Closed o))

Step-Passes : {w x : World} → Step w x → Passes w → Passes x
Step-Passes st (inl (inl c)) = elim (Step-Closed st c) [ inl d ↦ inl (inl d) | inr s ↦ inr s ]
Step-Passes st (inl (inr (o, i))) = Step-Open st o i
Step-Passes st (inr s) = inr (Step-Reset st s)

Run-Passes : {v w : World} → Run v w → Passes v → Passes w
Run-Passes here s = s
Run-Passes (next r st) s = Step-Passes st (Run-Passes r s)

accepted-Serves : Serves accepted
unfolding start_job
accepted-Serves = inr (
  record {
    closing = refl;
    uvclosed = refl;
    running = refl;
    dst = refl;
    src = refl;
    attached = refl;
    rest = [];
    queued = refl;
    unread = refl;
    busy = refl;
    shut = refl;
    fin = refl;
    reads = refl;
    echoed = refl;
    live = refl;
  },
  refl,
)

-- Whatever happens to an accepted job after the PROXY header, what was written to the stream of the
-- PUIC side is a prefix of what the TCP side has sent, and what was handed to libuv for the TCP side a
-- prefix of what the PUIC side has sent. Until the peer resets the stream, all that the TCP side has sent
-- was written.
pub pipe_fifo :
    {w : World}
    → Run accepted w
    → ((lost : List ℕ) × (w.job.conn.written ++ lost ≡ w.from_tcp))
      × ((rest : List ℕ) × (w.job.tcp.sent ++ rest ≡ w.from_puic))
      × ((w.job.conn.was_reset ≡ true) ⊎ (w.job.conn.written ≡ w.from_tcp))
pipe_fifo {w} r = elim (Run-Passes r (inl accepted-Serves)) [
  | inl (inl c) ↦ (([], append-nil w.job.conn.written ∙ c.echoed), (c.rest, c.queued), inr c.echoed)
  | inl (inr (o, i)) ↦
      (([], append-nil w.job.conn.written ∙ o.echoed), (o.rest, o.queued), inr o.echoed)
  | inr s ↦ ((s.lost, s.echoed), (s.rest, s.queued), inl s.was)
]

Open-idle :
    {j : ProxyJob} {out back : List ℕ}
    → Open j out back
    → is_idle j ≡ true
    → j.tcp.writing ≡ false
    → (j.tcp.sent ≡ out)
      × ((j.tcp.shutting || j.tcp.writeof) ≡ j.conn.fin_received)
      × (j.conn.fin_written ≡ j.tcp.readeof)
Open-idle {j} {out} o i n =
    let e : j.conn.unread ≡ [] = is_empty→nil j.conn.unread (ground (arith, i, n, o.shut)) in
    (
      sym (append-nil j.tcp.sent)
          ∙ ap (λ (xs : List ℕ). j.tcp.sent ++ xs) (sym e ∙ idle-unread o n)
          ∙ o.queued,
      ground (arith, i, n, o.shut),
      o.fin,
    )

-- Nothing is left behind: while the socket of an accepted job is open, no write is on its way and the peer
-- has not reset the stream, all that the PUIC side has sent was handed to libuv after the PROXY header,
-- the end of what the PUIC side sends was passed on if it has come, and the end of what the TCP side
-- sends exactly if that has come.
pub pipe_delivers :
    {w : World}
    → Run accepted w
    → w.job.tcp.uv_closing ≡ false
    → w.job.tcp.writing ≡ false
    → w.job.conn.was_reset ≡ false
    → (w.job.tcp.sent ≡ w.from_puic)
      × ((w.job.tcp.shutting || w.job.tcp.writeof) ≡ w.job.conn.fin_received)
      × (w.job.conn.fin_written ≡ w.job.tcp.readeof)
pipe_delivers r q n l = elim (Run-Passes r (inl accepted-Serves)) [
  | inl (inl c) ↦ ground (arith, c.closing, q)
  | inl (inr (o, i)) ↦ Open-idle o i n
  | inr s ↦ ground (arith, s.was, l)
]
