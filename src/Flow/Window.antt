-- ===== src/Flow/Window.antt =====
-- The receive side: AddBytesConsumed and the window updates that it sends.
use puic.Prelude.{ℕ, ◌+◌, ◌*◌, ◌/◌, ◌≤◌, ◌<◌, ◌≡◌, refl, arith, List, [], ◌∷◌, ◌++◌, ◌⊎◌, inl, inr}
use puic.Prelude.{
  Option, none, some, leb, ◌==◌, Bool-cases, sub64, add64, leb→le, leb_false→lt, ◌∙◌, if◌then◌else◌,
}
use puic.Flow.{FlowController, Event, window_update, Env, Outcome, increase_window_size}
use puic.Flow.{advance_receive_window, ensure_session}
use puic.Flow.{maybe_increase_max_window_size, send_window_update, maybe_send_window_update}
use puic.Flow.{add_bytes_consumed, window_update_threshold}
use puic.Flow.Valid.{IsCount, IsValid, ensure_window_at_least-IsValid}

abbrev pub AllValid : Option FlowController → Type 0
AllValid none = Unit {0}
AllValid (some s) = IsValid s

-- What growing the window may change: the size, upwards, and the time of the update.
record Grows (c : FlowController) (o : Outcome) : Type 0 where
  valid : IsValid o.self
  session_valid : AllValid o.session
  same_id : o.self.id ≡ c.id
  same_consumed : o.self.bytes_consumed ≡ c.bytes_consumed
  same_offset : o.self.receive_window_offset ≡ c.receive_window_offset
  same_send : o.self.send_window_offset ≡ c.send_window_offset
  larger : c.receive_window_size ≤ o.self.receive_window_size
  at_most_double : o.self.receive_window_size ≤ 2 * c.receive_window_size

ensure_session_valid :
    (env : Env) (c : FlowController) (session : Option FlowController)
    → AllValid session
    → ((ensure_session env c session).self ≡ c) × AllValid (ensure_session env c session).session
unfolding ensure_session
ensure_session_valid env c none v = (refl, tt)
ensure_session_valid env c (some s) v = (refl, ensure_window_at_least-IsValid _ v)

maybe_increase-Grows :
    (env : Env) {c : FlowController} (session : Option FlowController)
    → IsValid c
    → AllValid session
    → Grows c (maybe_increase_max_window_size env c session)
unfolding maybe_increase_max_window_size
maybe_increase-Grows env {c} session v vs =
    let grown : FlowController =
      increase_window_size (record c { prev_window_update_time = env.now }) in
    ground (arith, ensure_session_valid env grown session vs)

-- What a call leaves behind: the invariant, the count, at least half of the window open to the peer,
-- and a limit that has not fallen.
pub record Opens (c : FlowController) (count : ℕ) (o : Outcome) : Type 0 where
  pub valid : IsValid o.self
  pub session_valid : AllValid o.session
  pub consumed : o.self.bytes_consumed ≡ c.bytes_consumed + count
  pub half_open :
      o.self.bytes_consumed + o.self.receive_window_size / 2 ≤ o.self.receive_window_offset
  pub same_send : o.self.send_window_offset ≡ c.send_window_offset
  pub rises : c.receive_window_offset ≤ o.self.receive_window_offset

-- Either the announced limit stays and nothing is sent, or the whole window is opened and the last
-- frame sent announces that.
abbrev pub Announces : FlowController → Outcome → Type 0
Announces c o =
    ((o.self.receive_window_offset ≡ c.receive_window_offset) × (o.events ≡ []))
    ⊎ ((before : List Event) × (o.events
          ≡ before ++ (window_update c.id o.self.receive_window_offset ∷ []))
        × (o.self.receive_window_offset ≡ o.self.bytes_consumed + o.self.receive_window_size)
        × (c.receive_window_offset < o.self.receive_window_offset))

send_window_update_lem :
    (env : Env) {c : FlowController} (session : Option FlowController) (available : ℕ)
    → IsValid c
    → AllValid session
    → c.bytes_consumed + available ≡ c.receive_window_offset
    → available < c.receive_window_size / 2
    → let o = send_window_update env c session available in Opens c 0 o × Announces c o
unfolding send_window_update advance_receive_window
send_window_update_lem env {c} session available v vs e low = (
  ground (arith, grows),
  inr (grown.events, ground (arith, grows), ground (arith, grows), ground (arith, grows)),
)
  where
    grown : Outcome
    grown = maybe_increase_max_window_size env c session

    grows : Grows c grown
    grows = maybe_increase-Grows env session v vs

-- The stamp of the first call changes nothing else.
abbrev stamped : Env → FlowController → FlowController
stamped env c =
    if c.prev_window_update_time == 0 then record c { prev_window_update_time = env.now } else c

stamped_lem :
    (env : Env) (c : FlowController)
    → IsValid c
    → IsValid (stamped env c)
      × ((stamped env c).receive_window_offset ≡ c.receive_window_offset)
      × ((stamped env c).bytes_consumed ≡ c.bytes_consumed)
      × ((stamped env c).receive_window_size ≡ c.receive_window_size)
      × ((stamped env c).id ≡ c.id)
      × ((stamped env c).send_window_offset ≡ c.send_window_offset)
stamped_lem env c v = ground arith

-- `Opens` and `Announces` depend on few fields of the controller before the call.
rebase :
    {c d : FlowController} (m n : ℕ) {o : Outcome}
    → d.bytes_consumed + m ≡ c.bytes_consumed + n
    → d.receive_window_offset ≡ c.receive_window_offset
    → d.id ≡ c.id
    → d.send_window_offset ≡ c.send_window_offset
    → Opens d m o × Announces d o
    → Opens c n o × Announces c o
rebase m n a b i j (p, inl q) = (ground (arith, p), inl (ground (arith, q), q.1))
rebase m n a b i j (p, inr (before, e, w, l)) =
    (ground (arith, p), inr (before, e ∙ cc, w, omega arith))

maybe_send_window_update_lem :
    (env : Env) {c : FlowController} (session : Option FlowController)
    → IsValid c
    → AllValid session
    → let o = maybe_send_window_update env c session in Opens c 0 o × Announces c o
unfolding maybe_send_window_update
maybe_send_window_update_lem env {c} session v vs =
    let available : ℕ = sub64 c.receive_window_offset c.bytes_consumed in
    let (valid, offset, consumed, size, id, send) = stamped_lem env c v in
    elim (Bool-cases (leb (window_update_threshold c) available)) [
      | inl enough ↦
          rw enough (ground (arith, stamped_lem env c v, leb→le _ _ enough), inl (offset, refl))
      | inr low ↦ rw low (
          rebase 0 0 (omega arith) offset id send (
            send_window_update_lem env session available valid vs (omega arith)
              (omega (arith, size, leb_false→lt _ _ low))))
    ]

-- Consumed bytes are counted, a window that is more than half used is opened again and announced,
-- and otherwise nothing is sent.
pub add_bytes_consumed_lem :
    (env : Env) {c : FlowController} (session : Option FlowController) (count : ℕ)
    → IsValid c
    → AllValid session
    → c.bytes_consumed + count ≤ c.receive_window_offset
    → IsCount (c.bytes_consumed + count)
    → let o = add_bytes_consumed env c session count in Opens c count o × Announces c o
unfolding add_bytes_consumed
add_bytes_consumed_lem env {c} session count v vs h k =
    rebase 0 count (omega arith) refl refl refl
      (maybe_send_window_update_lem env {c = counted} session (omega arith) vs)
  where
    counted : FlowController
    counted = record c { bytes_consumed = add64 c.bytes_consumed count }
