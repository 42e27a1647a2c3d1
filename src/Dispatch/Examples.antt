-- ===== src/Dispatch/Examples.antt =====
-- Session 7 sends until the pool of requests is empty; two sessions get their turns.
use puic.Prelude.{ℕ, zero, suc, ◌<◌, ◌≡◌, refl, arith, Bool, true, false, List, [], ◌∷◌, length}
use puic.Prelude.{mem, inr}
use puic.Udp.{write_packet, open_socket, sender}
use puic.Udp.World.{write, hand_over, fresh}
use puic.Dispatch.{Serving, serving, connection_write, on_can_write}
use puic.Dispatch.Waiting.{Settled, on_can_write-Settled}
use puic.Dispatch.Waking.{Reach, begins, goes, sends, blocked_session_is_woken}

unfoldable flood : ℕ → Serving
flood zero = serving
flood (suc n) = (connection_write (flood n) 7 (100, true)).1

flood-Reach : (n : ℕ) → Reach (flood n)
unfolding flood
flood-Reach zero = begins
flood-Reach (suc n) = goes (flood-Reach n) (sends 7 (100, true))

blocked_session_is_woken_example :
    (mem 7 (flood 1025).waiting ≡ true)
    × ((flood 1025).world.sender.write_blocked ≡ true)
    × (0 < length (flood 1025).world.flying)
unfolding flood serving connection_write write hand_over write_packet fresh open_socket sender
blocked_session_is_woken_example = blocked_session_is_woken 7 (flood-Reach 1025) refl refl

-- Sessions 7 and 8 wait, and one request came back.
abbrev two_wait : Serving
two_wait = record {
  world = record {
    sender = record { avail_send_reqs = 0 ∷ []; write_blocked = false };
    flying = [];
    closing = [];
    gone = [];
  };
  waiting = 7 ∷ 8 ∷ [];
  stuck = 7 ∷ 8 ∷ [];
}

abbrev two_packets : ℕ → List (ℕ × Bool)
two_packets session = (100, true) ∷ (100, true) ∷ []

on_can_write-Settled_example : Settled two_wait (on_can_write 2 two_packets two_wait)
on_can_write-Settled_example =
    on_can_write-Settled two_packets 2 two_wait (inr (omega arith)) (λ x h. h)

-- Session 7 sends one packet and waits again, behind session 8.
two_wait_lem : (on_can_write 2 two_packets two_wait).waiting ≡ 8 ∷ 7 ∷ []
unfolding on_can_write connection_write write hand_over write_packet
two_wait_lem = refl
