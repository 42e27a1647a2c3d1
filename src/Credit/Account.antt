-- ===== src/Credit/Account.antt =====
-- What each call does to the counts of the two controllers.
use puic.Prelude.{
  ℕ, ◌+◌, ◌≤◌, ◌≡◌, refl, arith, ◌∙◌, true, ◌==◌, ltb, leb, if◌then◌else◌, if-cases, Option, none,
  some, add64, sub64, IsU64, not, ◌*◌,
}
use puic.Flow.{
  FlowController, Env, Outcome, update_highest_received_offset, add_bytes_consumed,
  maybe_send_window_update, send_window_update, maybe_increase_max_window_size,
  increase_window_size, ensure_session, window_update_threshold, ensure_window_at_least,
  advance_receive_window,
}
use puic.Credit.{
  StreamCredit, maybe_increase_highest, session_of, consume_self, consume_connection,
  consume_credit,
}

-- The counts that the windows do not touch.
abbrev pub IsSameCount : FlowController → FlowController → Type 0
IsSameCount c d =
    (d.highest_received_byte_offset ≡ c.highest_received_byte_offset)
    × (d.bytes_consumed ≡ c.bytes_consumed)

ensure_window-same : (c : FlowController) (n : ℕ) → IsSameCount c (ensure_window_at_least c n).0
unfolding ensure_window_at_least advance_receive_window increase_window_size
ensure_window-same c n = ground arith

-- Neither a stream's controller nor its session's, `s` where there is none.
abbrev KeepsCounts : FlowController → FlowController → Option FlowController → Outcome → Type 0
KeepsCounts s c session o =
    IsSameCount c o.self × IsSameCount (session_of s session) (session_of s o.session)

module _ (s : FlowController) (env : Env) where
  ensure_session-same :
      (c : FlowController) (session : Option FlowController)
      → KeepsCounts s c session (ensure_session env c session)
  unfolding ensure_session
  ensure_session-same c none = ((refl, refl), (refl, refl))
  ensure_session-same c (some d) = ((refl, refl), ensure_window-same d _)

  maybe_increase-same :
      (c : FlowController) (session : Option FlowController)
      → KeepsCounts s c session (maybe_increase_max_window_size env c session)
  unfolding maybe_increase_max_window_size increase_window_size
  maybe_increase-same c session =
      let c' : FlowController = record c { prev_window_update_time = env.now } in
      let P : Outcome → Type 0 = KeepsCounts s c session in
      let k : IsSameCount (session_of s session) (session_of s session) = (refl, refl) in
      if-cases P (c.prev_window_update_time == 0) (λ _. ((refl, refl), k))
        (λ _.
          if-cases P (not c.auto_tune_receive_window) (λ _. ((refl, refl), k))
            (λ _.
              if-cases P (env.smoothed_rtt == 0) (λ _. ((refl, refl), k))
                (λ _.
                  if-cases P (leb (2 * env.smoothed_rtt + c.prev_window_update_time) env.now)
                    (λ _. ((refl, refl), k))
                    (λ _.
                      if-cases P
                        (ltb c.receive_window_size (increase_window_size c').receive_window_size)
                        (λ _. ensure_session-same (increase_window_size c') session)
                        (λ _. ((refl, refl), k))))))

  maybe_send-same :
      (c : FlowController) (session : Option FlowController)
      → KeepsCounts s c session (maybe_send_window_update env c session)
  unfolding maybe_send_window_update send_window_update advance_receive_window
  maybe_send-same c session =
      let c' : FlowController =
        if c.prev_window_update_time == 0
        then record c { prev_window_update_time = env.now }
        else c in
      let same : IsSameCount c c' = ground arith in
      let g = maybe_increase-same c' session in
      if-cases (KeepsCounts s c session)
        (leb (window_update_threshold c) (sub64 c.receive_window_offset c.bytes_consumed))
        (λ _. (same, (refl, refl))) (λ _. ((g.0.0 ∙ same.0, g.0.1 ∙ same.1), g.1))

  -- Consumed bytes are counted by the controller that is told, and its session's count stays.
  pub add_bytes_consumed-counts :
      (c : FlowController) (session : Option FlowController) (count : ℕ)
      → let o = add_bytes_consumed env c session count in
        (o.self.highest_received_byte_offset ≡ c.highest_received_byte_offset)
        × (o.self.bytes_consumed ≡ add64 c.bytes_consumed count)
        × IsSameCount (session_of s session) (session_of s o.session)
  unfolding add_bytes_consumed
  add_bytes_consumed-counts c session count =
      let g =
        maybe_send-same (record c { bytes_consumed = add64 c.bytes_consumed count }) session in
      (g.0.0, g.0.1, g.1)

-- What AddBytesConsumed of a stream does to the counts.
pub consume_credit-counts :
    (env : Env) (c : StreamCredit) (bytes : ℕ)
    → c.contributes ≡ true
    → let d = (consume_credit env c bytes).1 in
      (d.self.highest_received_byte_offset ≡ c.self.highest_received_byte_offset)
      × (d.connection.highest_received_byte_offset ≡ c.connection.highest_received_byte_offset)
      × (d.self.bytes_consumed ≡ (
          if c.read_side_closed then c.self.bytes_consumed else add64 c.self.bytes_consumed bytes))
      × (d.connection.bytes_consumed ≡ add64 c.connection.bytes_consumed bytes)
      × (d.read_side_closed ≡ c.read_side_closed)
      × (d.contributes ≡ true)
unfolding consume_credit consume_self consume_connection
consume_credit-counts env c bytes h =
    let a = add_bytes_consumed-counts c.connection env c.self (some c.connection) bytes in
    let r : StreamCredit = (consume_self env c bytes).1 in
    let b = add_bytes_consumed-counts r.connection env r.connection none bytes in
    ground (arith, h, a, b)

-- What a higher offset does to the counts.
pub maybe_increase_highest-counts :
    (c : StreamCredit) (new_offset : ℕ)
    → c.contributes ≡ true
    → IsU64 (c.connection.highest_received_byte_offset + new_offset)
    → let d = (maybe_increase_highest c new_offset).1 in
      (d.self.highest_received_byte_offset + c.connection.highest_received_byte_offset
        ≡ d.connection.highest_received_byte_offset + c.self.highest_received_byte_offset)
      × (c.self.highest_received_byte_offset ≤ d.self.highest_received_byte_offset)
      × (d.self.highest_received_byte_offset ≤ c.self.highest_received_byte_offset + new_offset)
      × (d.self.bytes_consumed ≡ c.self.bytes_consumed)
      × (d.connection.bytes_consumed ≡ c.connection.bytes_consumed)
      × (d.read_side_closed ≡ c.read_side_closed)
      × (d.contributes ≡ true)
unfolding maybe_increase_highest update_highest_received_offset
maybe_increase_highest-counts c new_offset h u = ground (arith, h, u)
