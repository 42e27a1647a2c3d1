-- ===== src/Proxy/Delivery.antt =====
-- Whatever callbacks come, a job passes on every byte of both sides, in order.
use puic.Prelude.{ℕ, zero, suc, ◌<◌, ◌≡◌, refl, ap, arith, Bool, true, false, not, ◌||◌}
use puic.Prelude.{List, [], ◌∷◌, ◌++◌, length, drop, if-cases, ◌⊎◌, inl, inr, ◌∙◌}
use puic.Prelude.{drop-length_append}
use puic.Proxy.{ProxyJob, clean, start_read, stop_read}
use puic.Proxy.{conn_write, when_dropped, mark_consumed, on_puic_disconnected, is_empty}
use puic.Proxy.Handlers.{may_tcp_to_puic, on_uv_read}
use puic.Proxy.Handlers.{on_uv_write}
use puic.Proxy.World.{World}
use puic.Proxy.Pipe.{Closed, Open, IsServed, is_idle, clean-Closed, may_puic_to_tcp-Open}

-- The two sides of the world are served by its job.
abbrev pub Serves : World → Type 0
Serves w = IsServed w.job w.from_puic w.from_tcp

-- Reading is started and stopped with no effect on the bytes.
pub start_read-IsServed :
    {j : ProxyJob} {out back : List ℕ} (refused : Bool)
    → Open j out back
    → is_idle j ≡ true
    → IsServed (start_read j refused) out back
unfolding start_read
start_read-IsServed {j} {out} {back} refused o i =
    if-cases (λ r. IsServed r out back) (j.tcp.reading || j.tcp.readeof) (λ t. inr (o, i))
      (λ f.
        if-cases (λ r. IsServed r out back) refused (λ t. inl (clean-Closed o))
          (λ g. inr (ground (arith, o, f), i)))

pub may_tcp_to_puic-IsServed :
    {j : ProxyJob} {out back : List ℕ} (buffered : ℕ) (refused : Bool)
    → Open j out back
    → is_idle j ≡ true
    → IsServed (may_tcp_to_puic j buffered refused) out back
unfolding may_tcp_to_puic stop_read
may_tcp_to_puic-IsServed {j} buffered refused o i =
    ground (arith, start_read-IsServed refused o i, o, i)

pub on_puic_disconnected-Closed :
    {j : ProxyJob} {out back : List ℕ} → Open j out back → Closed (on_puic_disconnected j) out back
unfolding on_puic_disconnected
on_puic_disconnected-Closed {j} {out} {back} o =
    if-cases (λ r. Closed r out back) j.attached (λ t. clean-Closed o) (λ f. ground (arith, f, o))

-- What TCP sent is written to the PUIC side.
echo-Open :
    {j : ProxyJob} {out back : List ℕ} (bytes : List ℕ)
    → Open j out back
    → j.tcp.readeof ≡ false
    → Open
        (record j {
          conn = record j.conn { written = j.conn.written ++ bytes; fin_written = false };
        })
        out
        (back ++ bytes)
echo-Open bytes o f = ground (arith, o, f, ap (λ (xs : List ℕ). xs ++ bytes) o.echoed)

clean-running : (j : ProxyJob) → (clean j).running ≡ false
unfolding clean
clean-running j = ground arith

-- The session may close in the middle of a call: then the job has stopped.
abbrev IsCalled : ProxyJob → Bool → List ℕ → List ℕ → Type 0
IsCalled r idle out back =
    (Closed r out back × (r.running ≡ false)) ⊎ (Open r out back × (is_idle r ≡ idle))

when_dropped-IsCalled :
    {j : ProxyJob} {out back : List ℕ} (drops : Bool)
    → Open j out back
    → IsCalled (when_dropped drops j) (is_idle j) out back
when_dropped-IsCalled {j} true o = inl (
  on_puic_disconnected-Closed o,
  unfold on_puic_disconnected in ground (arith, clean-running j, o.attached),
)
when_dropped-IsCalled false o = inr (o, refl)

conn_write-IsCalled :
    {j : ProxyJob} {out back : List ℕ} (bytes : List ℕ) (drops : Bool)
    → j.tcp.reading ≡ true
    → Open j out back
    → IsCalled (conn_write j bytes false drops) (is_idle j) out (back ++ bytes)
unfolding conn_write
conn_write-IsCalled {j} {out} {back} bytes drops r o =
    if-cases (λ r. IsCalled r (is_idle j) out (back ++ bytes))
      (j.conn.fin_written || j.conn.was_reset) (λ t. ground (arith, t, o, r))
      (λ f. when_dropped-IsCalled drops (echo-Open bytes o (ground (arith, o, r))))

pub on_uv_read-IsServed :
    {j : ProxyJob} {out back : List ℕ} (bytes : List ℕ) (buffered : ℕ) (drops refused : Bool)
    → j.tcp.reading ≡ true
    → Open j out back
    → is_idle j ≡ true
    → IsServed (on_uv_read j bytes buffered drops refused) out (back ++ bytes)
unfolding on_uv_read
on_uv_read-IsServed {j} {out} {back} bytes buffered drops refused r o i =
    if-cases (λ r. IsServed r out (back ++ bytes)) j.tcp.uv_closing (λ t. ground (arith, t, o))
      (λ f.
        if-cases (λ r. IsServed r out (back ++ bytes))
          (not (conn_write j bytes false drops).running)
          (λ t. elim (conn_write-IsCalled bytes drops r o) [
            | inl (c, n) ↦ inl c
            | inr (p, e) ↦ ground (arith, t, p.running)
          ])
          (λ g. elim (conn_write-IsCalled bytes drops r o) [
            | inl (c, n) ↦ ground (arith, g, n)
            | inr (p, e) ↦ may_tcp_to_puic-IsServed buffered refused p (e ∙ i)
          ]))

is_empty-drop : (n : ℕ) (xs : List ℕ) → (not (is_empty xs) || is_empty (drop n xs)) ≡ true
is_empty-drop zero [] = refl
is_empty-drop zero (x ∷ xs) = refl
is_empty-drop (suc n) [] = refl
is_empty-drop (suc n) (x ∷ xs) = refl

-- A write that is done frees what it sent.
sent-Open :
    {j : ProxyJob} {out back : List ℕ}
    → Open j out back
    → Open
        (record j {
          tcp = record j.tcp { writing = false; flying = [] };
          conn = record j.conn { unread = drop (length j.tcp.flying) j.conn.unread };
        })
        out
        back
sent-Open {j} o = record {
  closing = o.closing;
  uvclosed = o.uvclosed;
  running = o.running;
  dst = o.dst;
  src = o.src;
  attached = o.attached;
  rest = o.rest;
  queued = o.queued;
  unread = ap (drop (length j.tcp.flying)) o.unread ∙ drop-length_append j.tcp.flying o.rest;
  busy = refl;
  shut = ground (arith, o.shut, is_empty-drop (length j.tcp.flying) j.conn.unread);
  fin = o.fin;
  reads = o.reads;
  echoed = o.echoed;
  live = o.live;
}

mark_consumed-IsCalled :
    {j : ProxyJob} {out back : List ℕ} (drops : Bool)
    → Open j out back
    → let j' = record j { tcp = record j.tcp { writing = false; flying = [] } } in
      let r = mark_consumed j' (length j.tcp.flying) drops in
      (Closed r out back × (r.running ≡ false)) ⊎ Open r out back
unfolding mark_consumed
mark_consumed-IsCalled drops o = elim (when_dropped-IsCalled drops (sent-Open o)) [
  | inl c ↦ inl c
  | inr p ↦ inr p.0
]

pub on_uv_write-IsServed :
    {j : ProxyJob} {out back : List ℕ} (failed drops : Bool) (amount : ℕ) (refused : Bool)
    → 0 < amount
    → Open j out back
    → IsServed (on_uv_write j failed drops amount refused) out back
unfolding on_uv_write
on_uv_write-IsServed {j} {out} {back} failed drops amount refused a o =
    let j' : ProxyJob = record j { tcp = record j.tcp { writing = false; flying = [] } } in
    if-cases (λ r. IsServed r out back) j.tcp.uv_closing (λ t. ground (arith, t, o))
      (λ f.
        if-cases (λ r. IsServed r out back) failed (λ t. inl (clean-Closed o))
          (λ g.
            if-cases (λ r. IsServed r out back)
              (not (mark_consumed j' (length j.tcp.flying) drops).running)
              (λ t. elim (mark_consumed-IsCalled drops o) [
                | inl (c, n) ↦ inl c
                | inr p ↦ ground (arith, t, p.running)
              ])
              (λ h. elim (mark_consumed-IsCalled drops o) [
                | inl (c, n) ↦ ground (arith, h, n)
                | inr p ↦ may_puic_to_tcp-Open amount refused a p
              ])))
