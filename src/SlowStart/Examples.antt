-- ===== src/SlowStart/Examples.antt =====
-- A slow round of eight samples.
use puic.Prelude.{ℕ, ◌+◌, ◌≡◌, ◌==◌, ◌&&◌, refl, arith, true, false, List, [], ◌∷◌, length}
use puic.SlowStart.{HybridSlowStart, should_exit_slow_start}
use puic.SlowStart.Exit.{sample_all, shortest, last_min, is_delayed, found_at_eighth}

-- What a round without delay has left.
abbrev quick_round : HybridSlowStart
quick_round = record {
  started = false;
  hystart_found = false;
  last_sent_packet_number = 40;
  end_packet_number = 20;
  rtt_sample_count = 7;
  current_min_rtt = 40000;
}

abbrev slow_samples : List (ℕ × ℕ × ℕ)
slow_samples =
    (71000, 40000, 10)
    ∷ (70000, 40000, 10)
    ∷ (72000, 40000, 10)
    ∷ (73000, 40000, 11)
    ∷ (74000, 40000, 12)
    ∷ (75000, 40000, 13)
    ∷ (60000, 40000, 14)
    ∷ []

found_at_eighth_example :
    let r = sample_all quick_round ((80000, 40000, 10) ∷ slow_samples) in
    (r.rtt_sample_count ≡ 1 + length slow_samples)
    × (r.current_min_rtt ≡ shortest 80000 slow_samples)
    × (r.hystart_found ≡ (
        (1 + length slow_samples == 8)
        && is_delayed (last_min 40000 slow_samples) (shortest 80000 slow_samples)))
found_at_eighth_example =
    found_at_eighth quick_round 80000 40000 10 slow_samples refl refl (omega arith) (omega arith)

slow_found : (sample_all quick_round ((80000, 40000, 10) ∷ slow_samples)).hystart_found ≡ true
unfolding sample_all should_exit_slow_start
slow_found = refl
