-- ===== src/Flow/Session.antt =====
-- A stream's controller beside its session's over any sequence of calls, and what EnsureWindowAtLeast
-- does for the session's window.
use puic.Prelude.{ℕ, ◌+◌, ◌≤◌, ◌<◌, arith, Option}
use puic.Flow.{FlowController, Env, increase_window_size, advance_receive_window}
use puic.Flow.{ensure_window_at_least, add_bytes_consumed, add_bytes_sent, maybe_send_blocked}
use puic.Flow.{update_send_window_offset, update_highest_received_offset}
use puic.Flow.Valid.{IsCount, IsValid, add_bytes_sent-IsValid, maybe_send_blocked-IsValid}
use puic.Flow.Valid.{update_send_window_offset-IsValid, update_highest_received_offset-IsValid}
use mathlib.Core.Path.{subst}
use puic.Prelude.{none, some, ◌≡◌}
use puic.Flow.{update_receive_window_size}
use puic.Flow.Window.{AllValid, add_bytes_consumed_lem}

pub record Pair : Type 0 where
  pub self : FlowController
  pub session : Option FlowController

-- One call that a controller makes on its own. The window is only made larger, within its limit.
pub data Call (c : FlowController) : FlowController → Type 0 where
  receive : (n : ℕ) → Call c (update_highest_received_offset c n).1
  send : (n : ℕ) → Call c (add_bytes_sent c n).0
  open_window : (n : ℕ) → IsCount n → Call c (update_send_window_offset c n).1
  ask_blocked : Call c (maybe_send_blocked c).0
  resize :
      (n : ℕ)
      → c.receive_window_offset ≤ n
      → n ≤ c.receive_window_size_limit
      → Call c (update_receive_window_size c n)

-- One call of a stream's controller or of the session's. The application consumes no more than the peer
-- was allowed to send, and counts stay in range.
pub data Step : Pair → Pair → Type 0 where
  of_stream : (p : Pair) {d : FlowController} → Call p.self d → Step p (record p { self = d })
  of_session :
      (p : Pair) {c d : FlowController}
      → p.session ≡ some c
      → Call c d
      → Step p (record p { session = some d })
  consume :
      (p : Pair) (env : Env) (n : ℕ)
      → p.self.bytes_consumed + n ≤ p.self.receive_window_offset
      → IsCount (p.self.bytes_consumed + n)
      → Step p (record {
        self = (add_bytes_consumed env p.self p.session n).self;
        session = (add_bytes_consumed env p.self p.session n).session;
      })
  session_consume :
      (p : Pair) {c : FlowController} (env : Env) (n : ℕ)
      → p.session ≡ some c
      → c.bytes_consumed + n ≤ c.receive_window_offset
      → IsCount (c.bytes_consumed + n)
      → Step p (record p { session = some (add_bytes_consumed env c none n).self })

pub data Reach (p : Pair) : Pair → Type 0 where
  here : Reach p p
  next : {q r : Pair} → Reach p q → Step q r → Reach p r

pub record PairValid (p : Pair) : Type 0 where
  pub self_valid : IsValid p.self
  pub session_valid : AllValid p.session

-- Well formed, with limits that have not fallen.
pub record Rises (c d : FlowController) : Type 0 where
  pub valid : IsValid d
  pub receive_rises : c.receive_window_offset ≤ d.receive_window_offset
  pub send_rises : c.send_window_offset ≤ d.send_window_offset

Call-Rises : {c d : FlowController} → Call c d → IsValid c → Rises c d
Call-Rises (receive n) v = record {
  valid = update_highest_received_offset-IsValid n v;
  receive_rises = unfold update_highest_received_offset in ground arith;
  send_rises = unfold update_highest_received_offset in ground arith;
}
Call-Rises (send n) v = record {
  valid = add_bytes_sent-IsValid n v;
  receive_rises = unfold add_bytes_sent in ground arith;
  send_rises = unfold add_bytes_sent in ground arith;
}
Call-Rises (open_window n h) v = record {
  valid = update_send_window_offset-IsValid n h v;
  receive_rises = unfold update_send_window_offset in ground arith;
  send_rises = unfold update_send_window_offset in ground arith;
}
Call-Rises ask_blocked v = record {
  valid = maybe_send_blocked-IsValid v;
  receive_rises = unfold maybe_send_blocked in ground arith;
  send_rises = unfold maybe_send_blocked in ground arith;
}
Call-Rises (resize n h l) v = record {
  valid = unfold update_receive_window_size in ground (arith, v);
  receive_rises = unfold update_receive_window_size in ground (arith, h);
  send_rises = unfold update_receive_window_size in ground arith;
}

-- A call keeps both controllers well formed and lowers neither limit of the stream.
Step-valid :
    {p q : Pair}
    → Step p q
    → PairValid p
    → PairValid q
      × (p.self.receive_window_offset ≤ q.self.receive_window_offset)
      × (p.self.send_window_offset ≤ q.self.send_window_offset)
Step-valid (of_stream p k) v =
    let r = Call-Rises k v.self_valid in
    (
      record { self_valid = r.valid; session_valid = v.session_valid },
      r.receive_rises,
      r.send_rises,
    )
Step-valid (of_session p e k) v = (
  record {
    self_valid = v.self_valid;
    session_valid = (Call-Rises k (subst AllValid e v.session_valid)).valid;
  },
  omega arith,
  omega arith,
)
Step-valid (consume p env n h k) v =
    let (o, _) = add_bytes_consumed_lem env p.session n v.self_valid v.session_valid h k in
    (
      record { self_valid = o.valid; session_valid = o.session_valid },
      o.rises,
      omega (arith, o.same_send),
    )
Step-valid (session_consume p env n e h k) v =
    let (o, _) = add_bytes_consumed_lem env none n (subst AllValid e v.session_valid) tt h k in
    (record { self_valid = v.self_valid; session_valid = o.valid }, omega arith, omega arith)

-- Over any sequence of calls of a stream's controller and of its session's, where UpdateReceiveWindowSize
-- asks for no less than the limit announced and nobody consumes more than was allowed, both controllers
-- stay well formed, and neither the limit that the stream has announced to the peer nor the one that the
-- peer granted it ever falls.
pub Reach-valid :
    {p q : Pair}
    → PairValid p
    → Reach p q
    → PairValid q
      × (p.self.receive_window_offset ≤ q.self.receive_window_offset)
      × (p.self.send_window_offset ≤ q.self.send_window_offset)
Reach-valid v here = (v, omega arith, omega arith)
Reach-valid v (next r s) =
    let (vq, a, b) = Reach-valid v r in
    let (vr, c, d) = Step-valid s vq in (vr, omega arith, omega arith)

-- A window that is smaller than the size asked for stays smaller: up to the limit the call does
-- nothing, and beyond it the size stops at the limit.
pub ensure_window_at_least_falls_short :
    (c : FlowController) (n : ℕ)
    → IsValid c
    → c.receive_window_size < n
    → (ensure_window_at_least c n).0.receive_window_size < n
unfolding ensure_window_at_least increase_window_size advance_receive_window
ensure_window_at_least_falls_short c n v h = ground arith
