-- ===== src/Proxy/Resets.antt =====
-- After the peer has reset the stream: nothing more is passed on in either direction.
use puic.Prelude.{
  ℕ, zero, suc, ◌≡◌, refl, sym, ap, arith, Bool, true, false, not, ◌||◌, List, [], ◌++◌, if-cases,
  ◌∙◌,
}
use puic.Prelude.{append_assoc, drop, take, length}
use puic.Proxy.{ProxyJob, clean, start_read, stop_read, shutdown_tcp, conn_write, when_dropped}
use puic.Proxy.{mark_consumed, on_puic_disconnected, is_empty, uv_close_once}
use puic.Proxy.Handlers.{on_uv_connect, on_uv_read, on_uv_read_eof, on_uv_read_error, on_uv_write}
use puic.Proxy.Handlers.{on_uv_shutdown, on_uv_close, on_puic_can_write}
use puic.Proxy.Handlers.{may_puic_to_tcp, may_tcp_to_puic}
use puic.Proxy.World.{World, with_reset, after_read, Step, connected, tcp_bytes, tcp_eof}
use puic.Proxy.World.{tcp_read_error, tcp_written, tcp_shut, tcp_closed, puic_bytes, puic_fin}
use puic.Proxy.World.{puic_can_write, puic_reset, puic_disconnected}

-- What was handed to libuv is a prefix of what the peer has sent, and what was written of what the TCP
-- side has sent.
pub record Reset (j : ProxyJob) (out back : List ℕ) : Type 0 where
  pub was : j.conn.was_reset ≡ true
  pub unread : j.conn.unread ≡ []
  pub rest : List ℕ
  pub queued : j.tcp.sent ++ rest ≡ out
  pub lost : List ℕ
  pub echoed : j.conn.written ++ lost ≡ back

take_nil : (n : ℕ) → is_empty (take n []) ≡ true
take_nil zero = refl
take_nil (suc n) = refl

drop_nil : (n : ℕ) → drop {A = ℕ} n [] ≡ []
drop_nil zero = refl
drop_nil (suc n) = refl

module _ {j : ProxyJob} {out back : List ℕ} (s : Reset j out back) where
  clean-Reset : Reset (clean j) out back
  unfolding clean
  clean-Reset = ground (arith, s)

  on_puic_disconnected-Reset : Reset (on_puic_disconnected j) out back
  unfolding on_puic_disconnected
  on_puic_disconnected-Reset =
      if-cases (λ r. Reset r out back) j.attached (λ _. clean-Reset) (λ _. s)

  when_dropped-Reset : (drops : Bool) → Reset (when_dropped drops j) out back
  when_dropped-Reset true = on_puic_disconnected-Reset
  when_dropped-Reset false = s

  start_read-Reset : (refused : Bool) → Reset (start_read j refused) out back
  unfolding start_read
  start_read-Reset refused =
      if-cases (λ r. Reset r out back) (j.tcp.reading || j.tcp.readeof) (λ t. s)
        (λ f. if-cases (λ r. Reset r out back) refused (λ t. clean-Reset) (λ g. ground (arith, s)))

  may_tcp_to_puic-Reset :
      (buffered : ℕ) (refused : Bool) → Reset (may_tcp_to_puic j buffered refused) out back
  unfolding may_tcp_to_puic stop_read
  may_tcp_to_puic-Reset buffered refused = ground (arith, start_read-Reset refused, s)

  -- There is nothing to write to libuv.
  may_puic_to_tcp-Reset :
      (amount : ℕ) (refused : Bool) → Reset (may_puic_to_tcp j amount refused) out back
  unfolding may_puic_to_tcp shutdown_tcp
  may_puic_to_tcp-Reset amount refused =
      let none_left : is_empty (take amount j.conn.unread) ≡ true =
        ap (λ (xs : List ℕ). is_empty (take amount xs)) s.unread ∙ take_nil amount in
      ground (arith, s, none_left)

  conn_write-Reset : (bytes : List ℕ) (fin drops : Bool) → conn_write j bytes fin drops ≡ j
  unfolding conn_write
  conn_write-Reset bytes fin drops = ground (arith, s.was)

  -- What the TCP side sends is dropped.
  lose-Reset : (bytes : List ℕ) → Reset j out (back ++ bytes)
  lose-Reset bytes = record {
    was = s.was;
    unread = s.unread;
    rest = s.rest;
    queued = s.queued;
    lost = s.lost ++ bytes;
    echoed =
        sym (append_assoc j.conn.written s.lost bytes) ∙ ap (λ (xs : List ℕ). xs ++ bytes) s.echoed;
  }

  on_uv_read-Reset :
      (bytes : List ℕ) (buffered : ℕ) (drops refused : Bool)
      → Reset (on_uv_read j bytes buffered drops refused) out back
  unfolding on_uv_read
  on_uv_read-Reset bytes buffered drops refused =
      rw (conn_write-Reset bytes false drops)
        (ground (arith, s, may_tcp_to_puic-Reset buffered refused))

  on_uv_read_eof-Reset : (drops : Bool) → Reset (on_uv_read_eof j drops) out back
  unfolding on_uv_read_eof uv_close_once
  on_uv_read_eof-Reset drops = rw (conn_write-Reset [] true drops) (ground (arith, s))

  written-Reset :
      Reset
        (record j {
          tcp = record j.tcp { writing = false; flying = [] };
          conn = record j.conn { unread = drop (length j.tcp.flying) j.conn.unread };
        })
        out
        back
  written-Reset = record {
    was = s.was;
    unread = ap (drop (length j.tcp.flying)) s.unread ∙ drop_nil (length j.tcp.flying);
    rest = s.rest;
    queued = s.queued;
    lost = s.lost;
    echoed = s.echoed;
  }

on_uv_write-Reset :
    {j : ProxyJob} {out back : List ℕ} (failed drops : Bool) (amount : ℕ) (refused : Bool)
    → Reset j out back
    → Reset (on_uv_write j failed drops amount refused) out back
unfolding on_uv_write mark_consumed
on_uv_write-Reset {j} {out} {back} failed drops amount refused s =
    let j' : ProxyJob = record j { tcp = record j.tcp { writing = false; flying = [] } } in
    let m : Reset (mark_consumed j' (length j.tcp.flying) drops) out back =
      when_dropped-Reset (written-Reset s) drops in
    if-cases (λ r. Reset r out back) j.tcp.uv_closing (λ t. s)
      (λ f.
        if-cases (λ r. Reset r out back) failed (λ t. clean-Reset s)
          (λ g.
            if-cases (λ r. Reset r out back)
              (not (mark_consumed j' (length j.tcp.flying) drops).running) (λ t. m)
              (λ h. may_puic_to_tcp-Reset m amount refused)))

-- A reset forgets what was not read.
pub with_reset-Reset :
    (j : ProxyJob) {out back : List ℕ} (rest lost : List ℕ)
    → j.tcp.sent ++ rest ≡ out
    → j.conn.written ++ lost ≡ back
    → Reset (with_reset j) out back
unfolding with_reset
with_reset-Reset j rest lost a b = record {
  was = refl;
  unread = refl;
  rest = rest;
  queued = a;
  lost = lost;
  echoed = b;
}

pub Step-Reset :
    {w x : World}
    → Step w x
    → Reset w.job w.from_puic w.from_tcp
    → Reset x.job x.from_puic x.from_tcp
Step-Reset {w} (connected failed refused) s =
    unfold on_uv_connect in ground (arith, s, clean-Reset s, start_read-Reset s refused)
Step-Reset {w} (tcp_bytes bytes buffered drops refused r q) s =
    unfold after_read in on_uv_read-Reset (lose-Reset s bytes) bytes buffered drops refused
Step-Reset (tcp_eof drops r) s = on_uv_read_eof-Reset s drops
Step-Reset tcp_read_error s = unfold on_uv_read_error in ground (arith, s, clean-Reset s)
Step-Reset (tcp_written failed drops amount refused r a) s =
    on_uv_write-Reset failed drops amount refused s
Step-Reset (tcp_shut failed r q) s =
    unfold on_uv_shutdown uv_close_once in ground (arith, s, clean-Reset s)
Step-Reset (tcp_closed q u) s = unfold on_uv_close in ground (arith, s)
Step-Reset (puic_bytes bytes amount refused f l a) s = absurd (ground (arith, l, s.was))
Step-Reset (puic_fin amount refused l a) s = absurd (ground (arith, l, s.was))
Step-Reset {w} (puic_can_write remain refused) s =
    unfold on_puic_can_write in
    if-cases (λ r. Reset r w.from_puic w.from_tcp) w.job.attached
      (λ t. may_tcp_to_puic-Reset s remain refused) (λ f. s)
Step-Reset {w} puic_reset s = with_reset-Reset w.job s.rest s.lost s.queued s.echoed
Step-Reset puic_disconnected s = on_puic_disconnected-Reset s
