-- ===== src/Dispatch/Waking.antt =====
-- Nobody waits for nothing: a session that is blocked is woken when the requests on their way are sent.
use puic.Prelude.{ℕ, ◌<◌, ◌≡◌, refl, ap, arith, Bool, true, false, if-cases}
use puic.Prelude.{List, [], ◌∷◌, ◌++◌, length, mem, remove_id, mem-remove_id, ◌⊎◌, inr}
use puic.Udp.{on_uv_send}
use puic.Udp.World.{complete, complete_closing, Run, here, next, sent, freed, fresh, lost}
use puic.Udp.World
use puic.Udp.Drain.{blocked_while_flying}
use puic.Dispatch.{Serving, serving, connection_write, on_sent, on_can_write, clean_up_session}
use puic.Dispatch.Waiting.{
  Listed, Turn, Sends-Run, connection_write-Turn, Settled, on_can_write-Settled,
}

-- A session sends a packet, libuv has sent one, a request of a closed socket is freed, a session ends.
pub data Step (v : Serving) : Serving → Type 0 where
  sends : (session : ℕ) (p : ℕ × Bool) → Step v (connection_write v session p).1
  completes :
      (before : List ℕ) (req : ℕ) (after : List ℕ) (work : ℕ → List (ℕ × Bool))
      → v.world.flying ≡ before ++ (req ∷ after)
      → Step v (on_sent v before req after work)
  frees :
      (before : List ℕ) (req : ℕ) (after : List ℕ)
      → v.world.closing ≡ before ++ (req ∷ after)
      → Step v (record v { world = complete_closing v.world before req after })
  leaves : (session : ℕ) → Step v (clean_up_session v session)

pub data Reach : Serving → Type 0 where
  begins : Reach serving
  goes : {u v : Serving} → Reach u → Step u v → Reach v

record IsSound (v : Serving) : Type 0 where
  runs : Run fresh v.world
  listed : Listed v
  ended : (v.world.sender.write_blocked ≡ true) ⊎ (v.waiting ≡ [])

Run-trans : {u v w : World.World} → Run u v → Run v w → Run u w
Run-trans r here = r
Run-trans r (next s st) = next (Run-trans r s) st

Turn-IsSound : (u v : Serving) → Turn u v → IsSound u → IsSound v
Turn-IsSound u v t s = record {
  runs = Run-trans s.runs (Sends-Run t.runs);
  listed = t.listed s.listed;
  ended = ground (arith, t.calm, t.sticky, s.ended);
}

Settled-IsSound : (u v : Serving) → Run fresh u.world → Settled u v → IsSound v
Settled-IsSound u v r s = record {
  runs = Run-trans r (Sends-Run s.runs);
  listed = s.listed;
  ended = s.ended;
}

-- The socket stays blocked where nobody is woken.
complete-blocked :
    (w : World.World) (before : List ℕ) (req : ℕ) (after : List ℕ)
    → (on_uv_send w.sender req false).0 ≡ false
    → w.sender.write_blocked ≡ true
    → (complete w before req after).sender.write_blocked ≡ true
unfolding complete on_uv_send
complete-blocked w before req after f b = ground (arith, f, b)

on_sent-IsSound :
    (v : Serving) (before : List ℕ) (req : ℕ) (after : List ℕ) (work : ℕ → List (ℕ × Bool))
    → v.world.flying ≡ before ++ (req ∷ after)
    → IsSound v
    → IsSound (on_sent v before req after work)
unfolding on_sent
on_sent-IsSound v before req after work e s =
    let u : Serving = record v { world = complete v.world before req after } in
    let r : Run fresh u.world = next s.runs (sent v.world before req after e) in
    if-cases IsSound (on_uv_send v.world.sender req false).0
      (λ _.
        Settled-IsSound u (on_can_write (length v.waiting) work u) r
          (on_can_write-Settled work (length v.waiting) u (inr (omega arith)) s.listed))
      (λ f. record {
        runs = r;
        listed = s.listed;
        ended = ground (arith, s.ended, complete-blocked v.world before req after f);
      })

complete_closing-blocked :
    (w : World.World) (before : List ℕ) (req : ℕ) (after : List ℕ)
    → (complete_closing w before req after).sender.write_blocked ≡ w.sender.write_blocked
unfolding complete_closing on_uv_send
complete_closing-blocked w before req after = refl

Step-IsSound : (u : Serving) {v : Serving} → Step u v → IsSound u → IsSound v
Step-IsSound u (sends session p) s =
    Turn-IsSound u (connection_write u session p).1 (connection_write-Turn u session p) s
Step-IsSound u (completes before req after work e) s = on_sent-IsSound u before req after work e s
Step-IsSound u (frees before req after e) s = record {
  runs = next s.runs (freed u.world before req after e);
  listed = s.listed;
  ended = ground (arith, s.ended, complete_closing-blocked u.world before req after);
}
Step-IsSound u (leaves session) s = record {
  runs = unfold clean_up_session in s.runs;
  listed = λ x h.
      unfold clean_up_session in
      ground
        (arith, s.listed x, h, mem-remove_id x session u.stuck, mem-remove_id x session u.waiting);
  ended = unfold clean_up_session in ground (arith, s.ended, ap (remove_id session));
}

Reach-IsSound : {v : Serving} → Reach v → IsSound v
Reach-IsSound begins =
    unfold serving in record { runs = here; listed = λ x h. cc; ended = inr refl }
Reach-IsSound (goes {u = u} r st) = Step-IsSound u st (Reach-IsSound r)

-- As long as no send request was lost, a session whose own writer is blocked is on the write-blocked
-- list, the socket is blocked, and some request is on its way.
pub blocked_session_is_woken :
    {v : Serving} (session : ℕ)
    → Reach v
    → mem session v.stuck ≡ true
    → lost v.world ≡ 0
    → (mem session v.waiting ≡ true)
      × (v.world.sender.write_blocked ≡ true)
      × (0 < length v.world.flying)
blocked_session_is_woken {v} session r h l =
    let s : IsSound v = Reach-IsSound r in
    let m : mem session v.waiting ≡ true = s.listed session h in
    let b : v.world.sender.write_blocked ≡ true = ground (arith, s.ended, m, ap (mem session)) in
    (m, b, blocked_while_flying s.runs l b)
