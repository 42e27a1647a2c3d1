-- ===== src/Dispatch/Waiting.antt =====
-- A session whose writer is blocked is on the write-blocked list, and stays there until its turn.
use puic.Prelude.{
  ℕ, zero, suc, ◌≤◌, ◌≡◌, refl, ◌∙◌, arith, Bool, true, false, ◌||◌, if-cases, Bool-cases,
}
use puic.Prelude.{List, [], ◌∷◌, length, mem, remove_id, mem-remove_id, mem-append, ◌⊎◌, inl, inr}
use puic.Prelude.{◌==◌}
use puic.Prelude.{ap, ==_iff}
use mathlib.Core.Path.{subst}
use puic.Udp.{write_packet}
use puic.Udp.World.{write, hand_over, Run, here, next, send}
use puic.Udp.World
use puic.Dispatch.{
  Serving, on_write_blocked, writer_write_packet, after_write, connection_write, write_all,
  on_blocked_writer_can_write, on_can_write, is_blocked_result, take_turn,
}

-- Packets are handed to the socket, and nothing else happens to it.
pub data Sends (v : World.World) : World.World → Type 0 where
  none_sent : Sends v v
  sends : {w : World.World} (n : ℕ) (accepted : Bool) → Sends v w → Sends v (write w n accepted)

Sends-trans : {u v w : World.World} → Sends u v → Sends v w → Sends u w
Sends-trans r none_sent = r
Sends-trans r (sends n a s) = sends n a (Sends-trans r s)

-- A part of what can happen to it.
pub Sends-Run : {v w : World.World} → Sends v w → Run v w
Sends-Run none_sent = here
Sends-Run (sends {w} n a s) = next (Sends-Run s) (send w n a)

abbrev pub Listed : Serving → Type 0
Listed v = (x : ℕ) → mem x v.stuck ≡ true → mem x v.waiting ≡ true

-- Writing leaves the list alone unless the socket is blocked, and then it stays blocked.
pub record Turn (v u : Serving) : Type 0 where
  pub runs : Sends v.world u.world
  pub listed : Listed v → Listed u
  pub calm : (u.world.sender.write_blocked ≡ true) ⊎ (u.waiting ≡ v.waiting)
  pub sticky : v.world.sender.write_blocked ≡ true → u.world.sender.write_blocked ≡ true

Turn-refl : (v : Serving) → Turn v v
Turn-refl v = record { runs = none_sent; listed = λ l. l; calm = inr refl; sticky = λ h. h }

Turn-trans : (u v w : Serving) → Turn u v → Turn v w → Turn u w
Turn-trans u v w a b = record {
  runs = Sends-trans a.runs b.runs;
  listed = λ l. b.listed (a.listed l);
  calm = ground (arith, a.calm, b.calm, b.sticky);
  sticky = λ h. b.sticky (a.sticky h);
}

on_write_blocked-mem :
    (v : Serving) (session x : ℕ)
    → mem x v.waiting ≡ true
    → mem x (on_write_blocked v session).waiting ≡ true
unfolding on_write_blocked
on_write_blocked-mem v session x h = ground (arith, h, mem-append x v.waiting (session ∷ []))

on_write_blocked_self :
    (v : Serving) (session : ℕ)
    → v.world.sender.write_blocked ≡ true
    → mem session (on_write_blocked v session).waiting ≡ true
unfolding on_write_blocked
on_write_blocked_self v session b = ground (arith, b, mem-append session v.waiting (session ∷ []))

on_write_blocked-calm :
    (v : Serving) (session : ℕ)
    → (v.world.sender.write_blocked ≡ true) ⊎ ((on_write_blocked v session).waiting ≡ v.waiting)
unfolding on_write_blocked
on_write_blocked-calm v session = ground arith

-- The socket is blocked after a write that was, and a write does not unblock it.
write-blocked :
    (w : World.World) (n : ℕ) (accepted : Bool)
    → (is_blocked_result (write_packet w.sender n accepted).0 || w.sender.write_blocked) ≡ true
    → (write w n accepted).sender.write_blocked ≡ true
unfolding write hand_over write_packet
write-blocked w n accepted h = ground (arith, h)

on_write_blocked-Turn : (v : Serving) (session : ℕ) → Turn v (on_write_blocked v session)
on_write_blocked-Turn v session = record {
  runs = unfold on_write_blocked in none_sent;
  listed = λ l x h. on_write_blocked-mem v session x (l x (unfold on_write_blocked in h));
  calm = unfold on_write_blocked in on_write_blocked-calm v session;
  sticky = λ h. unfold on_write_blocked in h;
}

-- What a blocked write leaves, listed.
abbrev stuck_at : Serving → ℕ → ℕ → Bool → Serving
stuck_at v session n accepted = record v {
  world = write v.world n accepted;
  stuck = session ∷ v.stuck;
}

stuck-Turn :
    (v : Serving) (session n : ℕ) (accepted : Bool)
    → is_blocked_result (write_packet v.world.sender n accepted).0 ≡ true
    → Turn v (on_write_blocked (stuck_at v session n accepted) session)
stuck-Turn v session n accepted b =
    let u : Serving = stuck_at v session n accepted in
    let off : (write v.world n accepted).sender.write_blocked ≡ true =
      write-blocked v.world n accepted (ground (arith, b)) in
    record {
      runs = unfold on_write_blocked in sends n accepted none_sent;
      listed = λ l x h.
          let old : ((session == x) || mem x v.stuck) ≡ true = unfold on_write_blocked in h in
          elim (Bool-cases (session == x)) [
            | inl e ↦
                subst (λ y. mem y (on_write_blocked u session).waiting ≡ true)
                  ((==_iff session x).0 e) (on_write_blocked_self u session off)
            | inr f ↦ on_write_blocked-mem u session x (l x (ground (arith, old, f)))
          ];
      calm = inl (unfold on_write_blocked in off);
      sticky = λ _. unfold on_write_blocked in off;
    }

pub connection_write-Turn :
    (v : Serving) (session : ℕ) (p : ℕ × Bool) → Turn v (connection_write v session p).1
unfolding connection_write writer_write_packet
connection_write-Turn v session (n, accepted) =
    if-cases (λ (r : Bool × Serving). Turn v r.1) (mem session v.stuck)
      (λ _. on_write_blocked-Turn v session)
      (λ _.
        if-cases (λ (r : Bool × Serving). Turn v (after_write session r).1)
          (is_blocked_result (write_packet v.world.sender n accepted).0)
          (λ t. stuck-Turn v session n accepted t)
          (λ _. record {
            runs = sends n accepted none_sent;
            listed = λ l. l;
            calm = inr refl;
            sticky = λ h. write-blocked v.world n accepted (ground (arith, h));
          }))

pub write_all-Turn :
    (v : Serving) (session : ℕ) (packets : List (ℕ × Bool)) → Turn v (write_all v session packets)
unfolding write_all
write_all-Turn v session [] = Turn-refl v
write_all-Turn v session (p ∷ ps) =
    let u : Serving = (connection_write v session p).1 in
    if-cases (Turn v) (connection_write v session p).0 (λ _. connection_write-Turn v session p)
      (λ _.
        Turn-trans v u (write_all u session ps) (connection_write-Turn v session p)
          (write_all-Turn u session ps))

-- The first session of the list gets its turn.
abbrev popped : Serving → List ℕ → ℕ → Serving
popped v rest session = record v { waiting = rest; stuck = remove_id session v.stuck }

popped-Listed :
    (v : Serving) (session : ℕ) (rest : List ℕ)
    → v.waiting ≡ session ∷ rest
    → Listed v
    → Listed (popped v rest session)
popped-Listed v session rest e l x h =
    ground (arith, h, mem-remove_id x session v.stuck, l x, ap (mem x) e)

nil_of_length : (xs : List ℕ) → length xs ≤ 0 → xs ≡ []
nil_of_length [] h = refl
nil_of_length (x ∷ xs) h = absurd (omega arith)

-- With a round for each session that waits, the loop ends because nobody waits or because the socket
-- is blocked again.
pub record Settled (v u : Serving) : Type 0 where
  pub runs : Sends v.world u.world
  pub listed : Listed u
  pub ended : (u.world.sender.write_blocked ≡ true) ⊎ (u.waiting ≡ [])

-- The rounds left suffice.
abbrev pub Enough : Serving → ℕ → Type 0
Enough v fuel = (v.world.sender.write_blocked ≡ true) ⊎ (length v.waiting ≤ fuel)

Enough-left :
    (v p u : Serving) (session : ℕ) (rest : List ℕ) (fuel : ℕ)
    → v.waiting ≡ session ∷ rest
    → v.world.sender.write_blocked ≡ false
    → Enough v (suc fuel)
    → ((u.world.sender.write_blocked ≡ true) ⊎ (u.waiting ≡ p.waiting))
    → p.waiting ≡ rest
    → Enough u fuel
Enough-left v p u session rest fuel e f (inl b) c r = cc
Enough-left v p u session rest fuel e f (inr h) (inl b) r = inl b
Enough-left v p u session rest fuel e f (inr h) (inr same) r =
    inr (omega (arith, ap (length {A = ℕ}) e, ap (length {A = ℕ}) (same ∙ r)))

module _ (work : ℕ → List (ℕ × Bool)) where
  take_turn-Settled :
      (fuel : ℕ) (loop : Serving → Serving)
      → ((u : Serving) → Enough u fuel → Listed u → Settled u (loop u))
      → (v : Serving) (waiting : List ℕ) → v.waiting ≡ waiting
      → Enough v (suc fuel)
      → Listed v
      → Settled v (take_turn loop work v waiting)
  unfolding take_turn on_blocked_writer_can_write
  take_turn-Settled fuel loop ih v [] e h l = record { runs = none_sent; listed = l; ended = inr e }
  take_turn-Settled fuel loop ih v (session ∷ rest) e h l =
      let p : Serving = popped v rest session in
      let u : Serving = write_all p session (work session) in
      let t : Turn p u = write_all-Turn p session (work session) in
      if-cases (Settled v) v.world.sender.write_blocked
        (λ b. record { runs = none_sent; listed = l; ended = inl b })
        (λ f.
          let s : Settled u (loop u) =
            ih u (Enough-left v p u session rest fuel e f h t.calm refl)
              (t.listed (popped-Listed v session rest e l)) in
          record { runs = Sends-trans t.runs s.runs; listed = s.listed; ended = s.ended })

  -- With a round for each session that waits, or with the socket blocked, OnCanWrite ends because nobody
  -- waits any more or because the socket is blocked, whatever the sessions send; all it does to the
  -- socket is to send, and each session with a blocked writer is listed after it.
  pub on_can_write-Settled :
      (fuel : ℕ) (v : Serving) → Enough v fuel → Listed v → Settled v (on_can_write fuel work v)
  unfolding on_can_write
  on_can_write-Settled zero v h l = record {
    runs = none_sent;
    listed = l;
    ended = ground (arith, h, nil_of_length v.waiting);
  }
  on_can_write-Settled (suc fuel) v h l =
      take_turn-Settled fuel (on_can_write fuel work) (on_can_write-Settled fuel) v v.waiting refl h
        l
