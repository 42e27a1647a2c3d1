-- ===== src/Proxy/Pipe.antt =====
-- Both directions of a job are first-in first-out, and none waits for nothing.
use puic.Prelude.{
  ℕ, zero, suc, ◌<◌, ◌≡◌, refl, sym, ap, arith, Bool, true, false, not, ◌&&◌, ◌||◌, List, [], ◌∷◌,
}
use puic.Prelude.{◌++◌, take, drop, if-cases, ◌⊎◌, inl, inr, ◌∙◌, append_assoc}
use puic.Prelude.{take-append-drop}
use puic.Proxy.{ProxyJob, clean}
use puic.Proxy.{shutdown_tcp, is_empty}
use puic.Proxy.Handlers.{may_puic_to_tcp}

-- The socket closes: nothing more is sent, and what was sent is a prefix of what was received.
-- `out` are the bytes from the PUIC side, `back` those from the TCP side.
pub record Closed (j : ProxyJob) (out back : List ℕ) : Type 0 where
  pub closing : j.tcp.uv_closing ≡ true
  pub quiet : (not j.attached || j.tcp.writeof) ≡ true
  pub rest : List ℕ
  pub queued : j.tcp.sent ++ rest ≡ out
  pub echoed : j.conn.written ≡ back

-- The socket is open. The stream holds what is on its way and what was not sent yet.
pub record Open (j : ProxyJob) (out back : List ℕ) : Type 0 where
  pub closing : j.tcp.uv_closing ≡ false
  pub uvclosed : j.tcp.uvclosed ≡ false
  pub running : j.running ≡ true
  pub dst : j.has_dst ≡ true
  pub src : j.has_src ≡ true
  pub attached : j.attached ≡ true
  pub rest : List ℕ
  pub queued : j.tcp.sent ++ rest ≡ out
  pub unread : j.conn.unread ≡ j.tcp.flying ++ rest
  pub busy : j.tcp.writing ≡ not (is_empty j.tcp.flying)
  pub shut :
      (not (j.tcp.shutting || j.tcp.writeof) || (is_empty j.conn.unread && j.conn.fin_received))
      ≡ true
  pub fin : j.conn.fin_written ≡ j.tcp.readeof
  pub reads : (not j.tcp.reading || not j.tcp.readeof) ≡ true
  pub echoed : j.conn.written ≡ back
  pub live : j.conn.was_reset ≡ false

-- Nothing waits: a write is on its way, or all was sent and a FIN passed on.
abbrev pub is_idle : ProxyJob → Bool
is_idle j =
    j.tcp.writing
    || j.tcp.shutting
    || j.tcp.writeof
    || (is_empty j.conn.unread && not j.conn.fin_received)

pub clean-Closed : {j : ProxyJob} {out back : List ℕ} → Open j out back → Closed (clean j) out back
unfolding clean
clean-Closed o = record {
  closing = ground (arith, o);
  quiet = ground (arith, o);
  rest = o.rest;
  queued = ground (arith, o);
  echoed = ground (arith, o);
}

is_empty-take : (amount : ℕ) (xs : List ℕ) → 0 < amount → is_empty (take amount xs) ≡ is_empty xs
is_empty-take zero xs h = absurd (omega arith)
is_empty-take (suc n) [] h = refl
is_empty-take (suc n) (x ∷ xs) h = refl

pub is_empty→nil : (xs : List ℕ) → is_empty xs ≡ true → xs ≡ []
is_empty→nil [] h = refl
is_empty→nil (x ∷ xs) h = cc

abbrev pub IsServed : ProxyJob → List ℕ → List ℕ → Type 0
IsServed r out back = Closed r out back ⊎ (Open r out back × (is_idle r ≡ true))

-- With no write on its way, all that the stream holds is still to send.
pub idle-unread :
    {j : ProxyJob} {out back : List ℕ}
    → (o : Open j out back) → j.tcp.writing ≡ false
    → j.conn.unread ≡ o.rest
idle-unread {j} o w =
    o.unread ∙ ap (λ f. f ++ o.rest) (is_empty→nil j.tcp.flying (ground (arith, o.busy, w)))

write-Open :
    {j : ProxyJob} {out back : List ℕ} (amount : ℕ)
    → 0 < amount
    → (o : Open j out back) → j.tcp.writing ≡ false
    → is_empty j.conn.unread ≡ false
    → let bytes = take amount j.conn.unread in
      Open
        (record j {
          tcp = record j.tcp { writing = true; flying = bytes; sent = j.tcp.sent ++ bytes };
        })
        out
        back
write-Open {j} {out} amount a o w e = record {
  closing = o.closing;
  uvclosed = o.uvclosed;
  running = o.running;
  dst = o.dst;
  src = o.src;
  attached = o.attached;
  rest = drop amount j.conn.unread;
  queued =
      append_assoc j.tcp.sent (take amount j.conn.unread) (drop amount j.conn.unread)
      ∙ rw (take-append-drop amount j.conn.unread) (rw (idle-unread o w) o.queued);
  unread = sym (take-append-drop amount j.conn.unread);
  busy = rw (is_empty-take amount j.conn.unread a) (ground (arith, e));
  shut = o.shut;
  fin = o.fin;
  reads = o.reads;
  echoed = o.echoed;
  live = o.live;
}

shutdown-Open :
    {j : ProxyJob} {out back : List ℕ}
    → Open j out back
    → is_empty j.conn.unread ≡ true
    → j.conn.fin_received ≡ true
    → Open (shutdown_tcp j) out back × (is_idle (shutdown_tcp j) ≡ true)
unfolding shutdown_tcp
shutdown-Open {j} o e f = ground (arith, o, e, f)

-- The regions are written, or a FIN is passed on.
pub may_puic_to_tcp-Open :
    {j : ProxyJob} {out back : List ℕ} (amount : ℕ) (refused : Bool)
    → 0 < amount
    → Open j out back
    → IsServed (may_puic_to_tcp j amount refused) out back
unfolding may_puic_to_tcp
may_puic_to_tcp-Open {j} {out} {back} amount refused a o =
    let same = is_empty-take amount j.conn.unread a in
    if-cases (λ r. IsServed r out back) j.tcp.writing (λ w. inr (o, ground (arith, w)))
      (λ w.
        if-cases (λ r. IsServed r out back)
          (is_empty (take amount j.conn.unread) && is_empty j.conn.unread && j.conn.fin_received)
          (λ t. inr (shutdown-Open o (ground (arith, t)) (ground (arith, t))))
          (λ f.
            if-cases (λ r. IsServed r out back) (is_empty (take amount j.conn.unread))
              (λ t. inr (o, ground (arith, t, f, same)))
              (λ g.
                if-cases (λ r. IsServed r out back)
                  (j.tcp.writing || is_empty (take amount j.conn.unread) || j.tcp.writeof)
                  (λ t. ground (arith, t, g, w, same, o))
                  (λ _.
                    if-cases (λ r. IsServed r out back) refused (λ _. inl (clean-Closed o))
                      (λ _. inr (write-Open amount a o w (ground (arith, g, same)), refl))))))
