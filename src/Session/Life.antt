-- ===== src/Session/Life.antt =====
-- A session from its handshake on: what the peer, the application and the streams do to it.
use puic.Prelude.{
  ℕ, ◌+◌, ◌*◌, ◌^◌, ◌≤◌, ◌<◌, ◌≡◌, refl, ap, arith, Bool, true, false, not, ◌&&◌, ◌||◌,
}
use puic.Prelude.{Option, none, some, List, [], ◌∷◌, if-cases, if◌then◌else◌, length}
use mathlib.Core.Path.{subst}
use puic.Prelude.{remove_id}
use puic.Session.{
  Session, Stream, session, find_stream, is_taken, is_closed, is_open, is_incoming, max_available,
  on_stream_frame, create_stream, cancel_stream, close_stream, close_found, set_delegate,
  stream_draining, on_final_byte_offset, on_handshake_confirmed, create_data_stream,
  create_outgoing, register_stream, activate_stream, get_or_create_dynamic_stream,
  close_stream_inner,
}
use puic.Session.Maps.{count, IsMap, All-find_stream}
use puic.Session.Closing.{Fine, close_found-Fine}
use puic.Session.Opening.{same-IsValid}
use puic.Session.Frames.{FineGet, send_rst_stream-Fine}
use puic.Session.Closed.{get_or_create-closed, on_stream_frame-closed, after_closed}
use puic.Session.Arrivals.{on_stream_frame-Fine}
use puic.Session.{close_connection}
use puic.Session.Changes.{
  change, change-IsValid, change-Kept, set_delegate-IsValid, stream_draining-IsValid,
  on_final_byte_offset-IsValid, create_stream-FineGet,
}
use puic.Session.Taken.{IsValid, theirs, Kept, count_keys}

-- What a stream tells about itself: it waits for acknowledgements or not, and how far its data goes.
-- That its length is known is not forgotten.
pub data Progress (t u : Stream) : Type 0 where
  progress :
      (waiting has_final : Bool) (offset : ℕ)
      → (not t.has_final_offset || has_final) ≡ true
      → u ≡ record t {
        waiting_for_acks = waiting;
        has_final_offset = has_final;
        highest_offset = offset;
      }
      → Progress t u

pub data Step (s : Session) : Session → Type 0 where
  frame :
      {u : Session} (id : ℕ) (fin violates readable : Bool)
      → id < 2 ^ 32
      → on_stream_frame s id fin violates readable ≡ some u
      → Step s u
  creates :
      {u : Session} {t : Option Stream}
      → s.next_outgoing + 2 < 2 ^ 32
      → create_stream s ≡ some (t, u)
      → Step s u
  cancels : {u : Session} (id : ℕ) → cancel_stream s id ≡ some u → Step s u
  closes : {u : Session} (id : ℕ) → close_stream s id ≡ some u → Step s u
  adopts : (id : ℕ) → Step s (set_delegate s id)
  drains :
      (id : ℕ) {t : Stream}
      → find_stream s.streams id ≡ some t
      → t.has_final_offset ≡ true
      → Step s (stream_draining s id)
  moves :
      {t u : Stream}
      → find_stream s.streams u.id ≡ some t
      → Progress t u
      → Step s (change s u s.num_draining)
  ends : (id : ℕ) (violates : Bool) → Step s (on_final_byte_offset s id violates)

pub data Run (s : Session) : Session → Type 0 where
  here : Run s s
  next : {u w : Session} → Run s u → Step u w → Run s w

Fine-at :
    (side : ℕ) (s u : Session) (r : Option Session)
    → r ≡ some u
    → Fine side s r
    → IsValid side u × Kept s u
Fine-at side s u r e f = subst (Fine side s) e f

cancel_stream-Fine :
    (side : ℕ) (s : Session) (id : ℕ) → IsValid side s → Fine side s (cancel_stream s id)
unfolding cancel_stream
cancel_stream-Fine side s id v =
    if-cases (Fine side s) (not (is_open s id)) (λ _. (v, λ x c. c))
      (λ _. send_rst_stream-Fine side s id v)

unregistered-Fine :
    (side : ℕ) (s : Session) (registered : List ℕ) (r : Option Session)
    → Fine side (record s { registered = registered }) r
    → Fine side s r
unregistered-Fine side s registered none h = tt
unregistered-Fine side s registered (some u) h = (h.0, λ x c. h.1 x (unfold is_closed in c))

close_stream-Fine :
    (side : ℕ) (s : Session) (id : ℕ) → IsValid side s → Fine side s (close_stream s id)
unfolding close_stream close_stream_inner
close_stream-Fine side s id v =
    if-cases (Fine side s) (is_closed s id) (λ _. (v, λ x c. c))
      (λ _.
        let ids : List ℕ = remove_id id s.registered in
        unregistered-Fine side s ids
          (close_found (record s { registered = ids }) (find_stream s.streams id) false)
          (close_found-Fine side (record s { registered = ids }) id false
            (same-IsValid side s ids s.resets s.preset s.connected v)))

moves-Fine :
    (side : ℕ) (s : Session) (t u : Stream)
    → find_stream s.streams u.id ≡ some t
    → Progress t u
    → (not t.draining || t.has_final_offset) ≡ true
    → IsValid side s
    → IsValid side (change s u s.num_draining) × Kept s (change s u s.num_draining)
moves-Fine side s t u e (progress waiting has_final offset keeps same) f v =
    let known : (not u.draining || u.has_final_offset) ≡ true = ground (
      arith,
      f,
      keeps,
      ap (λ (w : Stream). w.draining) same,
      ap (λ (w : Stream). w.has_final_offset) same,
    ) in
    let drained : s.num_draining + (if t.draining && theirs side t.id then 1 else 0)
        ≡ s.num_draining + (if u.draining && theirs side u.id then 1 else 0) =
      ground (arith, ap (λ (w : Stream). w.draining) same, ap (λ (w : Stream). w.id) same) in
    (
      change-IsValid side s t u s.num_draining v e known drained (omega arith),
      change-Kept side s t u s.num_draining v e known drained (omega arith),
    )

final_of :
    (side : ℕ) (s : Session) (id : ℕ) (t : Stream)
    → find_stream s.streams id ≡ some t
    → IsValid side s
    → (not t.draining || t.has_final_offset) ≡ true
final_of side s id t e v =
    All-find_stream (λ (w : Stream). (not w.draining || w.has_final_offset) ≡ true) s.streams id t
      v.final e

FineGet-at :
    (side : ℕ) (s u : Session) (t : Option Stream) (r : Option (Option Stream × Session))
    → r ≡ some (t, u)
    → FineGet side s r
    → IsValid side u × Kept s u
FineGet-at side s u t r e f = subst (FineGet side s) e f

Step-Fine :
    (side : ℕ) (s : Session) {u : Session} → Step s u → IsValid side s → IsValid side u × Kept s u
Step-Fine side s {u = u} (frame id fin violates readable small e) v =
    Fine-at side s u (on_stream_frame s id fin violates readable) e
      (on_stream_frame-Fine side s id fin violates readable v small)
Step-Fine side s {u = u} (creates {t = t} small e) v =
    FineGet-at side s u t (create_stream s) e (create_stream-FineGet side s v small)
Step-Fine side s {u = u} (cancels id e) v =
    Fine-at side s u (cancel_stream s id) e (cancel_stream-Fine side s id v)
Step-Fine side s {u = u} (closes id e) v =
    Fine-at side s u (close_stream s id) e (close_stream-Fine side s id v)
Step-Fine side s (adopts id) v = set_delegate-IsValid side s id v
Step-Fine side s (drains id {t = t} e f) v = stream_draining-IsValid side s id t e f v
Step-Fine side s (moves {t = t} {u = u} e p) v =
    moves-Fine side s t u e p (final_of side s u.id t e v) v
Step-Fine side s (ends id violates) v = on_final_byte_offset-IsValid side s id violates v

pub Run-Fine :
    (side : ℕ) (s : Session) {u : Session} → Run s u → IsValid side s → IsValid side u × Kept s u
Run-Fine side s here v = (v, λ x c. c)
Run-Fine side s (next {u = u} r st) v =
    let a = Run-Fine side s r v in let b = Step-Fine side u st a.0 in (b.0, λ x c. b.1 x (a.1 x c))

-- A session of which the handshake is about to be confirmed.
abbrev pub established : Bool → ℕ → ℕ → Session
established server max_in max_out = record (session server max_in max_out) { encrypted = true }

abbrev IsValidAt : ℕ → Option Session → Type 0
IsValidAt side none = Unit
IsValidAt side (some s) = IsValid side s

abbrev pub own_side : Bool → ℕ
own_side server = if server then 0 else 1

handshake-IsValidAt :
    (server : Bool) (max_in max_out : ℕ)
    → 0 < max_in
    → IsValidAt
        (own_side server)
        (on_handshake_confirmed (established server max_in max_out) server)
unfolding on_handshake_confirmed session create_data_stream create_outgoing register_stream
    activate_stream set_delegate is_incoming is_taken is_closed max_available
handshake-IsValidAt true m n h = record {
  own = refl;
  parity = refl;
  started = omega arith;
  unique = (refl, tt);
  used = (refl, tt);
  final = (refl, tt);
  incoming = refl;
  drains = refl;
  keys = tt;
  gone = tt;
  counted = refl;
  few = omega arith;
  fewer = omega arith;
}
handshake-IsValidAt false m n h = record {
  own = refl;
  parity = refl;
  started = omega arith;
  unique = (refl, tt);
  used = (refl, tt);
  final = (refl, tt);
  incoming = refl;
  drains = refl;
  keys = tt;
  gone = tt;
  counted = refl;
  few = omega arith;
  fewer = omega arith;
}

count_split :
    (side : ℕ) (ts : List Stream)
    → count (λ (t : Stream). theirs side t.id) ts
      ≡ count (λ (t : Stream). t.draining && theirs side t.id) ts
        + count (λ (t : Stream). not t.draining && theirs side t.id) ts
count_split side [] = omega arith
count_split side (t ∷ ts) = ground (arith, count_split side ts)

-- A run of a session from its handshake on.
module _ (server : Bool) (max_in max_out : ℕ) (positive : 0 < max_in) {s u : Session}
    (begun : on_handshake_confirmed (established server max_in max_out) server ≡ some s)
    (run : Run s u) where
  pub lives-IsValid : IsValid (own_side server) u
  lives-IsValid =
      (Run-Fine (own_side server) s run (
        subst (IsValidAt (own_side server)) begun
          (handshake-IsValidAt server max_in max_out positive))).0

  -- No identifier has two streams. The streams of the peer that do not drain, with those that were
  -- closed before their length was known, are at most as many as the session accepts, and at most ten
  -- times as many identifiers of the peer are skipped and not yet used.
  pub peer_streams_bounded :
      IsMap u.streams
      × (count (λ (t : Stream). not t.draining && theirs (own_side server) t.id) u.streams
            + count_keys (theirs (own_side server)) u.locally_closed
          ≤ u.max_open_incoming)
      × (length u.available ≤ u.max_open_incoming * 10)
  unfolding max_available
  peer_streams_bounded =
      let v = lives-IsValid in
      (
        v.unique,
        omega (
          arith,
          count_split (own_side server) u.streams,
          v.few,
          v.incoming,
          v.drains,
          v.counted,
        ),
        v.fewer,
      )

  -- Once an identifier is closed it stays closed: a STREAM frame for it finds no stream and opens none. It
  -- changes nothing, but that a FIN may give the final offset that the session waits for, and that the
  -- identifier 0 closes the connection.
  pub closed_for_good :
      {w : Session} (x : ℕ) (fin violates readable : Bool)
      → is_closed u x ≡ true
      → Run u w
      → (is_closed w x ≡ true)
        × (get_or_create_dynamic_stream w x ≡ some (none, w))
        × (on_stream_frame w x fin violates readable ≡ some (after_closed w x fin violates))
        × ((after_closed w x fin violates).streams ≡ w.streams)
  closed_for_good {w} x fin violates readable c later =
      let k : is_closed w x ≡ true = (Run-Fine (own_side server) u later lives-IsValid).1 x c in
      (
        k,
        get_or_create-closed w x k,
        on_stream_frame-closed w x fin violates readable k,
        unfold on_final_byte_offset close_connection in ground arith,
      )
