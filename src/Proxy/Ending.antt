-- ===== src/Proxy/Ending.antt =====
-- The ends of both directions: EOF of the TCP side and what follows a shutdown.
use puic.Prelude.{◌||◌, ℕ, ◌≡◌, refl, sym, ap, arith, Bool, true, false}
use puic.Prelude.{List, [], ◌++◌, if-cases, ◌⊎◌, inl, inr, ◌∙◌, append-nil}
use puic.Prelude.{Bool-cases, if◌then◌else◌}
use puic.Proxy.{ProxyJob, PuicConn, clean}
use puic.Proxy.{conn_write, on_puic_disconnected}
use puic.Proxy.{uv_close_once}
use puic.Proxy.Handlers.{on_uv_read_eof}
use puic.Proxy.Handlers.{on_uv_shutdown}
use puic.Proxy.Pipe.{Closed, Open, IsServed, is_idle, clean-Closed}

clean-with_conn :
    (j : ProxyJob) (c : PuicConn) → clean (record j { conn = c }) ≡ record (clean j) { conn = c }
unfolding clean
clean-with_conn j c = ground arith

Open-eof :
    {j : ProxyJob} {out back : List ℕ}
    → Open j out back
    → Open
        (record j {
          conn = record j.conn { written = j.conn.written ++ []; fin_written = true };
          tcp = record j.tcp { reading = false; readeof = true };
        })
        out
        back
Open-eof {j} o = ground (arith, o, append-nil j.conn.written)

clean-conn : (j : ProxyJob) → (clean j).conn ≡ j.conn
unfolding clean
clean-conn j = ground arith

Closed-conn :
    {j : ProxyJob} {out back : List ℕ} (c : PuicConn)
    → c.written ≡ j.conn.written
    → Closed j out back
    → Closed (record j { conn = c }) out back
Closed-conn c e o = ground (arith, o, e)

-- Both ends have passed on their end: the socket closes.
eof_close-IsServed :
    {j : ProxyJob} {out back : List ℕ}
    → Open j out back
    → is_idle j ≡ true
    → IsServed (record j { tcp = if j.tcp.writeof then uv_close_once j.tcp else j.tcp }) out back
unfolding uv_close_once
eof_close-IsServed {j} o i = elim (Bool-cases j.tcp.writeof) [
  | inl t ↦ inl (ground (arith, o, t))
  | inr f ↦ inr (ground (arith, o, f), ground (arith, i, f))
]

Closed-reads :
    {j : ProxyJob} {out back : List ℕ}
    → Closed j out back
    → let t = record j.tcp { reading = false; readeof = true } in
      Closed (record j { tcp = if t.writeof then uv_close_once t else t }) out back
unfolding uv_close_once
Closed-reads {j} c = ground (arith, c)

-- After the FIN of the input the job has stopped, or only the FIN was written.
conn_write_eof :
    {j : ProxyJob} {out back : List ℕ} (drops : Bool)
    → j.tcp.reading ≡ true
    → Open j out back
    → Closed (conn_write j [] true drops) out back
      ⊎ (conn_write j [] true drops ≡ record j {
        conn = record j.conn { written = j.conn.written ++ []; fin_written = true };
      })
unfolding conn_write on_puic_disconnected
conn_write_eof {j} {out} {back} true r o =
    let c : PuicConn = record j.conn { written = j.conn.written ++ []; fin_written = true } in
    if-cases (λ r. Closed r out back ⊎ (r ≡ record j { conn = c }))
      (j.conn.fin_written || j.conn.was_reset) (λ t. ground (arith, t, o, r))
      (λ f.
        if-cases (λ r. Closed r out back ⊎ (r ≡ record j { conn = c })) j.attached
          (λ a. inl (
            rw (clean-with_conn j c) (
              Closed-conn c
                (append-nil j.conn.written ∙ sym (ap (λ (d : PuicConn). d.written) (clean-conn j)))
                (clean-Closed o))))
          (λ a. inr refl))
conn_write_eof {j} {out} {back} false r o =
    let c : PuicConn = record j.conn { written = j.conn.written ++ []; fin_written = true } in
    if-cases (λ r. Closed r out back ⊎ (r ≡ record j { conn = c }))
      (j.conn.fin_written || j.conn.was_reset) (λ t. ground (arith, t, o, r)) (λ f. inr refl)

-- The end of the input is passed on as a FIN.
pub on_uv_read_eof-IsServed :
    {j : ProxyJob} {out back : List ℕ} (drops : Bool)
    → j.tcp.reading ≡ true
    → Open j out back
    → is_idle j ≡ true
    → IsServed (on_uv_read_eof j drops) out back
unfolding on_uv_read_eof
on_uv_read_eof-IsServed {j} {out} {back} drops r o i =
    if-cases (λ r. IsServed r out back) j.tcp.uv_closing (λ t. ground (arith, t, o))
      (λ f. elim (conn_write_eof drops r o) [
        | inl c ↦ inl (Closed-reads c)
        | inr e ↦ rw e (eof_close-IsServed (Open-eof o) i)
      ])

-- The end of the output; the socket closes if the input has ended before.
pub on_uv_shutdown-IsServed :
    {j : ProxyJob} {out back : List ℕ} (failed : Bool)
    → j.tcp.shutting ≡ true
    → j.tcp.writing ≡ false
    → Open j out back
    → IsServed (on_uv_shutdown j failed) out back
unfolding on_uv_shutdown uv_close_once
on_uv_shutdown-IsServed {j} {out} {back} failed s w o =
    if-cases (λ r. IsServed r out back) j.tcp.uv_closing (λ t. ground (arith, t, o))
      (λ f.
        if-cases (λ r. IsServed r out back) failed (λ t. inl (clean-Closed o))
          (λ g. elim (Bool-cases j.tcp.readeof) [
            | inl t ↦ inl (ground (arith, o, t, s, w))
            | inr f ↦ inr (ground (arith, o, f, s, w), ground (arith, f, s))
          ]))
