-- ===== src/Server/Reports.antt =====
-- What the application is told of a connection.
use puic.Prelude.{◌≡◌, refl, arith, Bool, true, false, not, ◌&&◌, ◌||◌, ◌∙◌, if-cases}
use puic.Prelude.{List, [], ◌∷◌, ◌++◌, Option, none, some}
use puic.Server.{
  ServerConn, server_conn, Notice, on_accept, on_can_read, on_can_write, on_disconnected, Call,
  handshaked, write_blocked, readable, incoming_stream, writable, session_closed, stream_closed,
  run,
}

-- What a session may do: one handshake, and nothing after its end.
abbrev pub is_life : Bool → List Call → Bool
is_life shaken [] = true
is_life shaken (handshaked ∷ es) = not shaken && is_life true es
is_life shaken (session_closed error_code from_remote ∷ []) = true
is_life shaken (session_closed error_code from_remote ∷ e ∷ es) = false
is_life shaken (write_blocked ∷ es) = is_life shaken es
is_life shaken (readable ∷ es) = is_life shaken es
is_life shaken (incoming_stream id ∷ es) = is_life shaken es
is_life shaken (writable remain ∷ es) = is_life shaken es
is_life shaken (stream_closed error_code from_remote ∷ es) = is_life shaken es

-- Accepted once and first, disconnected last.
abbrev pub is_told_well : Bool → List Notice → Bool
is_told_well accepted [] = true
is_told_well accepted (on_accept ∷ ns) = not accepted && is_told_well true ns
is_told_well accepted (on_can_read ∷ ns) = accepted && is_told_well accepted ns
is_told_well accepted (on_can_write remain ∷ ns) = accepted && is_told_well accepted ns
is_told_well accepted (on_disconnected error_code from_remote ∷ []) = accepted
is_told_well accepted (on_disconnected error_code from_remote ∷ n ∷ ns) = false

abbrev pub shakes : List Call → Bool
shakes [] = false
shakes (handshaked ∷ es) = true
shakes (write_blocked ∷ es) = shakes es
shakes (readable ∷ es) = shakes es
shakes (incoming_stream id ∷ es) = shakes es
shakes (writable remain ∷ es) = shakes es
shakes (session_closed error_code from_remote ∷ es) = shakes es
shakes (stream_closed error_code from_remote ∷ es) = shakes es

abbrev pub ends : List Call → Bool
ends [] = false
ends (handshaked ∷ es) = ends es
ends (write_blocked ∷ es) = ends es
ends (readable ∷ es) = ends es
ends (incoming_stream id ∷ es) = ends es
ends (writable remain ∷ es) = ends es
ends (session_closed error_code from_remote ∷ es) = true
ends (stream_closed error_code from_remote ∷ es) = ends es

abbrev pub tells_accept : List Notice → Bool
tells_accept [] = false
tells_accept (on_accept ∷ ns) = true
tells_accept (on_can_read ∷ ns) = tells_accept ns
tells_accept (on_can_write remain ∷ ns) = tells_accept ns
tells_accept (on_disconnected error_code from_remote ∷ ns) = tells_accept ns

abbrev pub is_deleted : Option ServerConn → Bool
is_deleted none = true
is_deleted (some c) = false

and_left : (a b : Bool) → (a && b) ≡ true → a ≡ true
and_left a b h = ground (arith, h)

and_right : (a b : Bool) → (a && b) ≡ true → b ≡ true
and_right a b h = ground (arith, h)

and_both : (a b : Bool) → a ≡ true → b ≡ true → (a && b) ≡ true
and_both a b h k = ground (arith, h, k)

not-false : (a : Bool) → not a ≡ false → a ≡ true
not-false a h = ground (arith, h)

or_true : (a b : Bool) → (true && b) ≡ ((a || true) && b)
or_true a b = ground arith

-- What the calls `es` leave that come after the notices `before`.
abbrev Reported : ServerConn → List Call → Option ServerConn × List Notice → List Notice → Type 0
Reported c es r before =
    (is_told_well c.handshaked (before ++ r.1) ≡ true)
    × (tells_accept (before ++ r.1) ≡ shakes es)
    × (is_deleted r.0 ≡ ((c.handshaked || shakes es) && ends es))

run_lem :
    (c : ServerConn) (es : List Call)
    → is_life c.handshaked es ≡ true
    → Reported c es (run (some c) es) []
unfolding run
run_lem c [] h = (refl, refl, ground arith)
run_lem c (handshaked ∷ es) h =
    let r = run_lem (record c { handshaked = true }) es (and_right (not c.handshaked) _ h) in
    (
      and_both (not c.handshaked) _ (and_left (not c.handshaked) _ h) r.0,
      refl,
      r.2 ∙ or_true c.handshaked (ends es),
    )
run_lem c (write_blocked ∷ es) h = run_lem c es h
run_lem c (readable ∷ es) h =
    if-cases (λ (r : Option ServerConn × List Notice). Reported c es (run r.0 es) r.1)
      (not c.handshaked) (λ _. run_lem c es h)
      (λ f.
        let r = run_lem c es h in
        (and_both c.handshaked _ (not-false c.handshaked f) r.0, r.1, r.2))
run_lem c (incoming_stream id ∷ es) h = run_lem c es h
run_lem c (writable remain ∷ es) h =
    if-cases (λ (r : Option ServerConn × List Notice). Reported c es (run r.0 es) r.1)
      (not c.handshaked) (λ _. run_lem c es h)
      (λ f.
        let r = run_lem c es h in
        (and_both c.handshaked _ (not-false c.handshaked f) r.0, r.1, r.2))
run_lem c (session_closed error_code from_remote ∷ []) h = ground (arith, h)
run_lem c (session_closed error_code from_remote ∷ e ∷ es) h = cc
run_lem c (stream_closed error_code from_remote ∷ es) h = run_lem c es h

-- A session that shakes hands at most once and does nothing after its end, with anything else in any
-- order. The application is told that the connection was accepted exactly if there was a handshake,
-- first and once, and that it was disconnected last, if at all. The connection is deleted exactly if
-- there was a handshake and the session ended: one whose session ends before the handshake is never
-- deleted.
pub reports_lem :
    (calls : List Call)
    → is_life false calls ≡ true
    → let (conn, notices) = run (some server_conn) calls in
      (is_told_well false notices ≡ true)
      × (tells_accept notices ≡ shakes calls)
      × (is_deleted conn ≡ (shakes calls && ends calls))
unfolding server_conn
reports_lem calls h = run_lem server_conn calls h
