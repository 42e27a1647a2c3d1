-- ===== src/Udp/Examples.antt =====
-- The theorems on the send requests at concrete worlds, and tests of the sender.
use puic.Prelude.{ℕ, zero, suc, ◌≡◌, refl, arith, true, false}
use puic.Prelude.{[], ◌∷◌}
use puic.Udp.{requests, write_packet, open_socket, sender}
use puic.Udp.World.{World, write, hand_over, send, Run, here, next, IsValid, fresh}
use puic.Udp.World.{start_world, stop_world, born, lives, step, stop, start}
use puic.Udp.Requests.{places, each_in_one_place}
use puic.Udp.Stall.{blocked_for_good}
use puic.Udp.Drain.{drain, drain_unblocks}

-- One request refused by libuv, the others on their way, and the sender blocked.
abbrev stuck : World
stuck = record {
  sender = record { avail_send_reqs = []; write_blocked = true };
  flying = requests 1023;
  closing = [];
  gone = 1023 ∷ [];
}

stuck-IsValid : IsValid stuck
unfolding IsValid requests
stuck-IsValid = refl

blocked_for_good_example : (write stuck 7 true).sender.write_blocked ≡ true
blocked_for_good_example =
    blocked_for_good {v = stuck} {w = write stuck 7 true} stuck-IsValid (omega arith) refl
      (next here (send stuck 7 true))

-- A socket is closed while a packet is on its way, and another is opened.
each_in_one_place_example : places 1023 (start_world (stop_world (write fresh 100 true))) ≡ 1
each_in_one_place_example = each_in_one_place 1023 (
    lives (lives (lives born (step (send fresh 100 true))) (stop (write fresh 100 true)))
      (start (stop_world (write fresh 100 true))))

-- Packets sent with nothing completed between.
unfoldable flood : ℕ → World
flood zero = fresh
flood (suc n) = write (flood n) 100 true

flood-Run : (n : ℕ) → Run fresh (flood n)
unfolding flood
flood-Run zero = here
flood-Run (suc n) = next (flood-Run n) (send (flood n) 100 true)

drain_unblocks_example : (drain (flood 1025).flying (flood 1025)).sender.write_blocked ≡ false
unfolding flood write hand_over write_packet fresh open_socket sender
drain_unblocks_example = drain_unblocks (flood-Run 1025) refl

flood_blocks : (flood 1025).sender.write_blocked ≡ true
unfolding flood write hand_over write_packet fresh open_socket sender
flood_blocks = refl
