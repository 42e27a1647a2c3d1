-- ===== src/SlowStart/Exit.antt =====
-- What ShouldExitSlowStart finds in the samples of a round, and what it forgets to ask for.
use puic.Prelude.{
  ℕ, ◌+◌, ◌/◌, ◌≤◌, ◌<◌, ◌≡◌, ◌==◌, ltb, min, refl, ap, arith, Bool, true, false, ◌&&◌, ◌||◌, List,
  [], ◌∷◌, length,
}
use puic.SlowStart.{HybridSlowStart, should_exit_slow_start, start_receive_round, sample_rtt}
use puic.SlowStart.{check_delay, increase_threshold}
use puic.Prelude.{◌∙◌}
use mathlib.Core.Path.{subst}

-- The samples of a round, in order: the time, the shortest time of the session then, and the window.
unfoldable pub sample_all : HybridSlowStart → List (ℕ × ℕ × ℕ) → HybridSlowStart
sample_all h [] = h
sample_all h ((rtt, min_rtt, window) ∷ samples) =
    sample_all (should_exit_slow_start h rtt min_rtt window).1 samples

-- The shortest time of a round.
abbrev pub shortest : ℕ → List (ℕ × ℕ × ℕ) → ℕ
shortest m [] = m
shortest m ((rtt, min_rtt, window) ∷ samples) = shortest (min m rtt) samples

-- The shortest time of the session at the last sample.
abbrev pub last_min : ℕ → List (ℕ × ℕ × ℕ) → ℕ
last_min m [] = m
last_min m ((rtt, min_rtt, window) ∷ samples) = last_min min_rtt samples

abbrev pub AllPositive : List (ℕ × ℕ × ℕ) → Type 0
AllPositive [] = Unit {0}
AllPositive ((rtt, min_rtt, window) ∷ samples) = (0 < rtt) × AllPositive samples

-- How much longer the times of a round must be: an eighth, within 4 and 16 milliseconds.
abbrev pub is_delayed : ℕ → ℕ → Bool
is_delayed min_rtt rtt =
    ltb (min_rtt + 4000) rtt && (ltb (min_rtt + min_rtt / 8) rtt || ltb (min_rtt + 16000) rtt)

-- After some samples of a round.
record InRound (h : HybridSlowStart) (count shortest_rtt : ℕ) (found : Bool) : Type 0 where
  started : h.started ≡ true
  counted : h.rtt_sample_count ≡ count
  least : h.current_min_rtt ≡ shortest_rtt
  result : h.hystart_found ≡ found

first_sample :
    (h : HybridSlowStart) (rtt min_rtt window : ℕ)
    → h.started ≡ false
    → h.hystart_found ≡ false
    → InRound (should_exit_slow_start h rtt min_rtt window).1 1 rtt false
unfolding should_exit_slow_start start_receive_round sample_rtt check_delay
first_sample h rtt min_rtt window s n = ground (arith, s, n)

next_sample :
    (h : HybridSlowStart) (count m rtt min_rtt window : ℕ)
    → InRound h count m false
    → 0 < m
    → count < 8
    → InRound
        (should_exit_slow_start h rtt min_rtt window).1
        (count + 1)
        (min m rtt)
        ((count + 1 == 8) && is_delayed min_rtt (min m rtt))
unfolding should_exit_slow_start sample_rtt check_delay increase_threshold
next_sample h count m rtt min_rtt window r p l = ground (arith, r, p, l)

-- The first eight samples, from some on.
rest_of_round :
    (h : HybridSlowStart) (count m mr : ℕ) (samples : List (ℕ × ℕ × ℕ))
    → InRound h count m ((count == 8) && is_delayed mr m)
    → 0 < m
    → AllPositive samples
    → count + length samples ≤ 8
    → InRound
        (sample_all h samples)
        (count + length samples)
        (shortest m samples)
        ((count + length samples == 8) && is_delayed (last_min mr samples) (shortest m samples))
unfolding sample_all
rest_of_round h count m mr [] r p a l = record {
  started = r.started;
  counted = omega (arith, r.counted);
  least = r.least;
  result = r.result ∙ ap (λ c. (c == 8) && is_delayed mr m) (omega arith);
}
rest_of_round h count m mr ((rtt, min_rtt, window) ∷ samples) r p a l =
    let q : InRound h count m false = record {
      started = r.started;
      counted = r.counted;
      least = r.least;
      result = r.result ∙ ground (arith, l);
    } in
    let h' : HybridSlowStart = (should_exit_slow_start h rtt min_rtt window).1 in
    let e : count + 1 + length samples ≡ count + length ((rtt, min_rtt, window) ∷ samples) =
      omega arith in
    subst
      (λ n.
        InRound (sample_all h' samples) n (shortest (min m rtt) samples)
          ((n == 8) && is_delayed (last_min min_rtt samples) (shortest (min m rtt) samples)))
      e
      (rest_of_round h' (count + 1) (min m rtt) min_rtt samples
        (next_sample h count m rtt min_rtt window q p (omega (arith, l))) (omega (arith, p, a)) a.1
        (omega (arith, l)))

-- From the start of a round with no delay found yet, whatever the last round has left, the samples are
-- counted and the shortest of their positive times is kept, up to the eighth; and delay is found at the
-- eighth and no sooner, exactly if that time is longer than the shortest of the session at the eighth by
-- more than an eighth of it, where less than 4 milliseconds count as 4 and more than 16 as 16.
pub found_at_eighth :
    (h : HybridSlowStart) (rtt min_rtt window : ℕ) (samples : List (ℕ × ℕ × ℕ))
    → h.started ≡ false
    → h.hystart_found ≡ false
    → AllPositive ((rtt, min_rtt, window) ∷ samples)
    → length samples ≤ 7
    → let r = sample_all h ((rtt, min_rtt, window) ∷ samples) in
      (r.rtt_sample_count ≡ 1 + length samples)
      × (r.current_min_rtt ≡ shortest rtt samples)
      × (r.hystart_found ≡ (
          (1 + length samples == 8)
          && is_delayed (last_min min_rtt samples) (shortest rtt samples)))
unfolding sample_all
found_at_eighth h rtt min_rtt window samples s n a l =
    let r =
      rest_of_round (should_exit_slow_start h rtt min_rtt window).1 1 rtt min_rtt samples
        (first_sample h rtt min_rtt window s n) a.0 a.1 (omega (arith, l)) in
    (r.counted, r.least, r.result)

found_exits :
    (h : HybridSlowStart) (latest_rtt min_rtt window : ℕ)
    → h.hystart_found ≡ true
    → (should_exit_slow_start h latest_rtt min_rtt window).0 ≡ true
unfolding should_exit_slow_start
found_exits h latest min_rtt window f = rw f refl

-- When delay is found with fewer than 16 packets in the window, that call says to stay in slow start,
-- and the next one says to leave it, at any window.
pub small_window_exits :
    (h : HybridSlowStart) (latest_rtt min_rtt window latest_rtt' min_rtt' window' : ℕ)
    → h.hystart_found ≡ false
    → (should_exit_slow_start h latest_rtt min_rtt window).1.hystart_found ≡ true
    → window < 16
    → let (exits, r) = should_exit_slow_start h latest_rtt min_rtt window in
      (exits ≡ false) × ((should_exit_slow_start r latest_rtt' min_rtt' window').0 ≡ true)
small_window_exits h latest min_rtt window latest' min_rtt' window' n f l =
    (unfold should_exit_slow_start in ground (arith, n), found_exits _ latest' min_rtt' window' f)
