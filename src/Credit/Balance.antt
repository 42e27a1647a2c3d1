-- ===== src/Credit/Balance.antt =====
-- The connection's books over the life of one of its streams.
use puic.Prelude.{
  sub64, List, ℕ, ◌+◌, ◌≤◌, ◌≡◌, arith, true, false, ltb, if-cases, Bool, add64, IsU64,
}
use puic.Flow.{FlowController, Env, Event}
use puic.Credit.{
  StreamCredit, FrameVerdict, is_violated, credit_frame, credit_reset, consume_credit, credit_close,
  maybe_increase_highest,
}
use puic.Credit.Account.{consume_credit-counts, maybe_increase_highest-counts}

-- A stream of a connection, after what the other streams have received and consumed. Those are in range
-- and nobody consumes more than was received; a stream that is closed for reading has no data to consume.
pub data Runs : StreamCredit → ℕ → ℕ → Type 0 where
  opened :
      (c : StreamCredit)
      → c.self.highest_received_byte_offset ≡ 0
      → c.self.bytes_consumed ≡ 0
      → c.contributes ≡ true
      → c.connection.bytes_consumed ≤ c.connection.highest_received_byte_offset
      → IsU64 c.connection.highest_received_byte_offset
      → Runs c c.connection.highest_received_byte_offset c.connection.bytes_consumed
  framed :
      {c : StreamCredit} {h k : ℕ} (offset data_length : ℕ)
      → Runs c h k
      → IsU64 (c.connection.highest_received_byte_offset + (offset + data_length))
      → Runs (credit_frame c offset data_length).1 h k
  was_reset :
      {c : StreamCredit} {h k : ℕ} (byte_offset : ℕ)
      → Runs c h k
      → IsU64 (c.connection.highest_received_byte_offset + byte_offset)
      → Runs (credit_reset c byte_offset).1 h k
  consumed :
      {c : StreamCredit} {h k : ℕ} (env : Env) (bytes : ℕ)
      → Runs c h k
      → c.read_side_closed ≡ false
      → c.self.bytes_consumed + bytes ≤ c.self.highest_received_byte_offset
      → Runs (consume_credit env c bytes).1 h k
  others :
      {c : StreamCredit} {h k : ℕ} (d : FlowController) (m n : ℕ)
      → Runs c h k
      → d.highest_received_byte_offset ≡ c.connection.highest_received_byte_offset + m
      → d.bytes_consumed ≡ c.connection.bytes_consumed + n
      → k + n ≤ h + m
      → IsU64 d.highest_received_byte_offset
      → Runs (record c { connection = d }) (h + m) (k + n)

-- The connection has received and consumed what this stream and the others have.
pub record InBalance (c : StreamCredit) (h k : ℕ) : Type 0 where
  pub contributing : c.contributes ≡ true
  pub received : c.connection.highest_received_byte_offset ≡ h + c.self.highest_received_byte_offset
  pub used : c.connection.bytes_consumed ≡ k + c.self.bytes_consumed
  pub unread : c.self.bytes_consumed ≤ c.self.highest_received_byte_offset
  pub others_unread : k ≤ h
  pub in_range : IsU64 c.connection.highest_received_byte_offset

increase-InBalance :
    (c : StreamCredit) (h k new_offset : ℕ)
    → InBalance c h k
    → IsU64 (c.connection.highest_received_byte_offset + new_offset)
    → InBalance (maybe_increase_highest c new_offset).1 h k
increase-InBalance c h k new_offset b u =
    let q = maybe_increase_highest-counts c new_offset b.contributing u in
    let d : StreamCredit = (maybe_increase_highest c new_offset).1 in
    record {
      contributing = q.6;
      received = omega (arith, q, b.received);
      used = omega (arith, q, b.used);
      unread = omega (arith, q, b.unread);
      others_unread = b.others_unread;
      in_range = omega (arith, q, u);
    }

frame-InBalance :
    (c : StreamCredit) (h k offset data_length : ℕ)
    → InBalance c h k
    → IsU64 (c.connection.highest_received_byte_offset + (offset + data_length))
    → InBalance (credit_frame c offset data_length).1 h k
unfolding credit_frame
frame-InBalance c h k offset data_length b u =
    let r : Bool × StreamCredit = maybe_increase_highest c (add64 offset data_length) in
    let P : FrameVerdict × StreamCredit → Type 0 = λ q. InBalance q.1 h k in
    if-cases P c.read_side_closed (λ _. b)
      (λ _.
        if-cases P (ltb 0 data_length)
          (λ _. increase-InBalance c h k (add64 offset data_length) b (omega (arith, u))) (λ _. b))

reset-InBalance :
    (c : StreamCredit) (h k byte_offset : ℕ)
    → InBalance c h k
    → IsU64 (c.connection.highest_received_byte_offset + byte_offset)
    → InBalance (credit_reset c byte_offset).1 h k
unfolding credit_reset
reset-InBalance c h k byte_offset b u =
    let r : Bool × StreamCredit = maybe_increase_highest c byte_offset in
    let d = increase-InBalance c h k byte_offset b u in
    if-cases (λ (q : Bool × StreamCredit). InBalance q.1 h k) (is_violated r.1) (λ _. d)
      (λ _. record {
        contributing = d.contributing;
        received = d.received;
        used = d.used;
        unread = d.unread;
        others_unread = d.others_unread;
        in_range = d.in_range;
      })

consume-InBalance :
    (c : StreamCredit) (h k : ℕ) (env : Env) (bytes : ℕ)
    → InBalance c h k
    → c.read_side_closed ≡ false
    → c.self.bytes_consumed + bytes ≤ c.self.highest_received_byte_offset
    → InBalance (consume_credit env c bytes).1 h k
consume-InBalance c h k env bytes b o l =
    let q = consume_credit-counts env c bytes b.contributing in
    let s : (consume_credit env c bytes).1.self.bytes_consumed ≡ c.self.bytes_consumed + bytes =
      ground (arith, q, o, b, l) in
    record {
      contributing = q.5;
      received = omega (arith, q, b.received);
      used = omega (arith, q, s, b.used, b.received, b.others_unread, b.in_range, l);
      unread = omega (arith, q, s, l);
      others_unread = b.others_unread;
      in_range = omega (arith, q, b.in_range);
    }

-- Whatever frames and resets come, and whatever is consumed by this stream and the others, the
-- connection's controller has received and consumed the sums over the streams.
pub Runs-InBalance : {c : StreamCredit} {h k : ℕ} → Runs c h k → InBalance c h k
Runs-InBalance (opened c a b e l u) = record {
  contributing = e;
  received = omega (arith, a);
  used = omega (arith, b);
  unread = omega (arith, a, b);
  others_unread = l;
  in_range = u;
}
Runs-InBalance (framed {c} {h} {k} offset data_length r u) =
    frame-InBalance c h k offset data_length (Runs-InBalance r) u
Runs-InBalance (was_reset {c} {h} {k} byte_offset r u) =
    reset-InBalance c h k byte_offset (Runs-InBalance r) u
Runs-InBalance (consumed {c} {h} {k} env bytes r o l) =
    consume-InBalance c h k env bytes (Runs-InBalance r) o l
Runs-InBalance (others {c} {h} {k} d m n r a b l u) =
    let i = Runs-InBalance r in
    record {
      contributing = i.contributing;
      received = omega (arith, a, i.received);
      used = omega (arith, b, i.used);
      unread = i.unread;
      others_unread = l;
      in_range = u;
    }

-- When a stream is closed, after any frames, resets and consumed bytes of it and of the other streams
-- that violate no limit, the connection's controller has counted as consumed every byte of the stream
-- up to its highest received offset, exactly once, whether or not it was read or even came.
pub closed_in_balance :
    {c : StreamCredit} {h k : ℕ} (env : Env)
    → Runs c h k
    → is_violated c ≡ false
    → let d = (credit_close env c).1 in
      (d.connection.bytes_consumed ≡ k + c.self.highest_received_byte_offset)
      × (d.connection.highest_received_byte_offset ≡ h + c.self.highest_received_byte_offset)
      × (d.read_side_closed ≡ true)
unfolding credit_close is_violated
closed_in_balance {c} {h} {k} env r v =
    let b = Runs-InBalance r in
    let d : StreamCredit = record c { read_side_closed = true } in
    let q =
      consume_credit-counts env d (sub64 d.self.highest_received_byte_offset d.self.bytes_consumed)
        b.contributing in
    if-cases
      (λ (r : List Event × StreamCredit).
        (r.1.connection.bytes_consumed ≡ k + c.self.highest_received_byte_offset)
        × (r.1.connection.highest_received_byte_offset ≡ h + c.self.highest_received_byte_offset)
        × (r.1.read_side_closed ≡ true))
      (is_violated d) (λ t. absurd (ground (arith, t, v)))
      (λ _. (
        omega (arith, q, b.received, b.used, b.unread, b.others_unread, b.in_range),
        omega (arith, q, b.received),
        q.4,
      ))
