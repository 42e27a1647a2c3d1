-- ===== src/Session/Examples.antt =====
-- A server's session: the preset stream, a stream that the peer opens beside it, and the end of the
-- first.
use puic.Prelude.{◌+◌, ◌*◌, ◌≤◌, ◌≡◌, refl, arith, true, false, not, ◌&&◌, Option, none, some}
use puic.Prelude.{length, inr}
use puic.Session.{
  Session, Stream, stream, session, find_stream, is_closed, on_stream_frame, cancel_stream,
  on_handshake_confirmed, get_or_create_dynamic_stream, num_open_incoming, max_available,
  additional_available,
}
use puic.Session.Maps.{IsMap, count}
use puic.Session.Taken.{theirs, count_keys}
use puic.Session.Closed.{after_closed}
use puic.Session.Life.{frame, cancels, Run, here, next, established, closed_for_good}
use puic.Session.Life.{peer_streams_bounded}
use puic.Session.Unwanted.{Accepts, unwanted_stream_stays}

abbrev run_of : Option Session → Session
run_of none = session true 0 0
run_of (some s) = s

abbrev begun : Session
unfolding on_handshake_confirmed session
begun = run_of (on_handshake_confirmed (established true 100 100) true)

begun_lem : on_handshake_confirmed (established true 100 100) true ≡ some begun
unfolding on_handshake_confirmed session
begun_lem = refl

-- The peer opens stream 7.
abbrev second : Session
unfolding on_handshake_confirmed session on_stream_frame
second = run_of (on_stream_frame begun 7 false false false)

second_lem : on_stream_frame begun 7 false false false ≡ some second
unfolding on_handshake_confirmed session on_stream_frame
second_lem = refl

-- The preset stream is reset.
abbrev third : Session
unfolding on_handshake_confirmed session on_stream_frame cancel_stream
third = run_of (cancel_stream second 3)

third_lem : cancel_stream second 3 ≡ some third
unfolding on_handshake_confirmed session on_stream_frame cancel_stream
third_lem = refl

-- A frame for the identifier that was skipped.
abbrev fourth : Session
unfolding on_handshake_confirmed session on_stream_frame cancel_stream
fourth = run_of (on_stream_frame third 5 false false false)

fourth_lem : on_stream_frame third 5 false false false ≡ some fourth
unfolding on_handshake_confirmed session on_stream_frame cancel_stream
fourth_lem = refl

abbrev to_third : Run begun third
to_third =
    next (next here (frame 7 false false false (omega arith) second_lem)) (cancels 3 third_lem)

closed_there : is_closed third 3 ≡ true
unfolding on_handshake_confirmed session on_stream_frame cancel_stream is_closed
closed_there = refl

closed_for_good_example :
    (is_closed fourth 3 ≡ true)
    × (get_or_create_dynamic_stream fourth 3 ≡ some (none, fourth))
    × (on_stream_frame fourth 3 true false false ≡ some (after_closed fourth 3 true false))
    × ((after_closed fourth 3 true false).streams ≡ fourth.streams)
closed_for_good_example =
    closed_for_good true 100 100 (omega arith) {s = begun} {u = third} begun_lem to_third
      {w = fourth} 3 true false false closed_there
      (next here (frame 5 false false false (omega arith) fourth_lem))

peer_streams_bounded_example :
    IsMap third.streams
    × (count (λ (t : Stream). not t.draining && theirs 0 t.id) third.streams
          + count_keys (theirs 0) third.locally_closed
        ≤ third.max_open_incoming)
    × (length third.available ≤ third.max_open_incoming * 10)
peer_streams_bounded_example =
    peer_streams_bounded true 100 100 (omega arith) {s = begun} {u = third} begun_lem to_third

begun-Accepts : Accepts begun 5
unfolding on_handshake_confirmed session is_closed num_open_incoming max_available
    additional_available
begun-Accepts = record {
  real = refl;
  dynamic = refl;
  comes = refl;
  absent = refl;
  fresh = refl;
  secure = refl;
  room = omega arith;
  near = inr (omega arith);
}

unwanted_stream_stays_example :
    (w : Session) × (on_stream_frame begun 5 true false false ≡ some w)
    × (find_stream w.streams 5 ≡ some (stream 5))
    × (w.resets ≡ begun.resets)
    × (on_stream_frame begun 5 true false true ≡ none)
unwanted_stream_stays_example = unwanted_stream_stays begun 5 true false begun-Accepts
