-- ===== src/Dialer/Lives.antt =====
-- What may happen to a dialer, and that its maps fit together all the time.
use puic.Prelude.{
  ◌≡◌, refl, arith, Bool, true, false, ◌&&◌, ◌||◌, List, [], ◌∷◌, All, if-cases, if◌then◌else◌,
}
use puic.Dialer.{
  Dialer, ClientConn, Reaction, dialer, is_nil, on_closed, on_conn_write_blocked, start, stop,
  on_alarm,
}
use puic.Dialer.{create_conn, on_transport_can_write, wake_first, wakeup}
use mathlib.Core.Path.{subst}
use puic.Dialer.Sound.{
  live-is_nil, IsLive, IsMap, IsSound, on_closed-IsSound, on_conn_write_blocked-IsSound, same_maps,
}
use puic.Dialer.Sound.{start-IsSound, create_conn-IsSound}
use puic.Dialer.Stopping.{stop-IsSound, on_alarm-IsSound}

dialer-IsSound : IsSound dialer
unfolding dialer
dialer-IsSound = record {
  linked = record { live = tt; unique = tt; blocked = tt };
  alarm = refl;
  off = refl;
}

fills-IsSound :
    {d : Dialer} (b : Bool)
    → IsSound d
    → IsSound (if b then record d { write_blocked = true } else d)
fills-IsSound true s = record {
  linked = same_maps s.linked refl refl;
  alarm = s.alarm;
  off = s.off;
}
fills-IsSound false s = s

fills-conns :
    (d : Dialer) (b : Bool) → (if b then record d { write_blocked = true } else d).conns ≡ d.conns
fills-conns d true = refl
fills-conns d false = refl

on_transport_can_write-IsSound :
    {d : Dialer} (c : ClientConn) (r : Reaction)
    → IsSound d
    → IsLive d.conns c
    → IsSound (on_transport_can_write d c r)
unfolding on_transport_can_write
on_transport_can_write-IsSound {d} c r s l =
    let d' : Dialer = if r.fills then record d { write_blocked = true } else d in
    let s' : IsSound d' = fills-IsSound r.fills s in
    let l' : IsLive d'.conns c = rw (fills-conns d r.fills) l in
    let d'' : Dialer = if r.blocks then on_conn_write_blocked d' c else d' in
    let s'' : IsSound d'' =
      if-cases IsSound r.blocks (λ t. on_conn_write_blocked-IsSound c s' l') (λ t. s') in
    let l'' : IsLive d''.conns c =
      if-cases (λ (e : Dialer). IsLive e.conns c) r.blocks (λ t. unfold on_conn_write_blocked in l')
        (λ t. l') in
    if-cases IsSound r.closes (λ t. on_closed-IsSound c s'' l'') (λ t. s'')

wake_first-IsSound :
    {d : Dialer} (bs : List ClientConn) (r : Reaction)
    → d.blocked_conns ≡ bs
    → IsSound d
    → IsSound (wake_first d bs r)
wake_first-IsSound [] r e s = s
wake_first-IsSound {d} (c ∷ cs) r e s =
    let b : All (IsLive d.conns) (c ∷ cs) =
      subst (λ xs. All (IsLive d.conns) xs) e s.linked.blocked in
    on_transport_can_write-IsSound c r
      (record {
        linked = record { live = s.linked.live; unique = s.linked.unique; blocked = b.1 };
        alarm = s.alarm;
        off = ground (arith, s.off, live-is_nil d.conns c b.0);
      })
      b.0

wakeup-IsSound : (rs : List Reaction) {d : Dialer} → IsSound d → IsSound (wakeup rs d)
unfolding wakeup
wakeup-IsSound [] s = s
wakeup-IsSound (r ∷ rs) {d} s =
    if-cases IsSound (is_nil d.blocked_conns || d.write_blocked) (λ t. s)
      (λ t. wakeup-IsSound rs (wake_first-IsSound d.blocked_conns r refl s))

-- A session reports that it is blocked or closed only while its connection is in the map.
pub data Step (d : Dialer) : Dialer → Type 0 where
  started : (bound : Bool) → Step d (start d bound).1
  created : (conn : ClientConn) (bound : Bool) → Step d (create_conn d conn bound).1
  blocked : (c : ClientConn) → IsLive d.conns c → Step d (on_conn_write_blocked d c)
  closed : (c : ClientConn) → IsLive d.conns c → Step d (on_closed d c)
  filled : Step d (record d { write_blocked = true })
  drained : (rs : List Reaction) → Step d (wakeup rs (record d { write_blocked = false }))
  alarmed : d.delete_conns_alarm ≡ true → Step d (on_alarm d)
  stopped : Step d (stop d)

pub data Run : Dialer → Type 0 where
  here : Run dialer
  next : {d e : Dialer} → Run d → Step d e → Run e

flag-IsSound : {d : Dialer} (b : Bool) → IsSound d → IsSound (record d { write_blocked = b })
flag-IsSound b s = record { linked = same_maps s.linked refl refl; alarm = s.alarm; off = s.off }

Step-IsSound : {d e : Dialer} → Step d e → IsSound d → IsSound e
Step-IsSound (started bound) s = start-IsSound bound s
Step-IsSound (created conn bound) s = create_conn-IsSound conn bound s
Step-IsSound (blocked c l) s = on_conn_write_blocked-IsSound c s l
Step-IsSound (closed c l) s = on_closed-IsSound c s l
Step-IsSound filled s = flag-IsSound true s
Step-IsSound (drained rs) s = wakeup-IsSound rs (flag-IsSound false s)
Step-IsSound (alarmed a) s = on_alarm-IsSound s
Step-IsSound stopped s = stop-IsSound s

pub Run-IsSound : {d : Dialer} → Run d → IsSound d
Run-IsSound here = dialer-IsSound
Run-IsSound (next r st) = Step-IsSound st (Run-IsSound r)

-- Whatever happens to a dialer, every pointer in its list of blocked connections is to a connection in
-- its map, no identifier has two connections, the alarm is set while closed connections wait to be
-- deleted, and a dialer that does not run holds no connection at all.
pub no_dangling_conn :
    {d : Dialer}
    → Run d
    → All (IsLive d.conns) d.blocked_conns
      × IsMap d.conns
      × ((is_nil d.closed_conns || d.delete_conns_alarm) ≡ true)
      × ((d.crypto_config || (is_nil d.conns && is_nil d.blocked_conns && is_nil d.closed_conns))
          ≡ true)
no_dangling_conn r = let s = Run-IsSound r in (s.linked.blocked, s.linked.unique, s.alarm, s.off)
