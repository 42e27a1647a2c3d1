-- ===== src/Session/Unwanted.antt =====
-- A stream that the peer opens beside the preset one: both connection classes cancel it in
-- OnIncomingStream, which the session calls before the stream is in its map.
use puic.Prelude.{ℕ, ◌+◌, ◌≤◌, ◌<◌, ◌≡◌, refl, sym, ap, arith, Bool, true, false, not, ◌==◌, ◌∙◌}
use puic.Prelude.{leb, ltb, Option, none, some, ◌∷◌, if-cases, if◌then◌else◌, length}
use puic.Prelude.{◌⊎◌}
use mathlib.Core.Path.{subst}
use puic.Session.{
  Session, Stream, stream, find_stream, is_closed, is_open, is_incoming, max_available,
  num_open_incoming, maybe_increase, additional_available, open_incoming, create_missing, get_found,
  get_or_create_dynamic_stream, on_stream_frame, on_data_available, deliver, activate_stream,
  crypto_stream_id,
}
use puic.Session.Taken.{release, raise}
use puic.Session.Frames.{create_data_stream_lem}

-- A session that accepts a new stream of the peer at the identifier.
pub record Accepts (s : Session) (id : ℕ) : Type 0 where
  pub real : (id == 0) ≡ false
  pub dynamic : (id == crypto_stream_id) ≡ false
  pub comes : is_incoming s id ≡ true
  pub absent : find_stream s.streams id ≡ none
  pub fresh : is_closed s id ≡ false
  pub secure : s.encrypted ≡ true
  pub room : num_open_incoming s < s.max_open_incoming
  pub near :
      id ≤ s.largest_peer
      ⊎ (length (release s id).available + additional_available id s.largest_peer ≤ max_available s)

-- What MaybeIncreaseLargestPeerStreamId leaves as it was.
record Grown (s g : Session) : Type 0 where
  streams : g.streams ≡ s.streams
  resets : g.resets ≡ s.resets
  secure : g.encrypted ≡ s.encrypted
  incoming : num_open_incoming g ≡ num_open_incoming s
  limit : g.max_open_incoming ≡ s.max_open_incoming

abbrev Increased : Session → Bool × Session → Type 0
Increased s r = (r.0 ≡ true) × Grown s r.1

maybe_increase-Increased :
    (s : Session) (id : ℕ) → Accepts s id → Increased s (maybe_increase (release s id) id)
unfolding maybe_increase num_open_incoming
maybe_increase-Increased s id a =
    let same : Grown s (release s id) = record {
      streams = refl;
      resets = refl;
      secure = refl;
      incoming = refl;
      limit = refl;
    } in
    let more : Grown s (raise (release s id) id) = record {
      streams = refl;
      resets = refl;
      secure = refl;
      incoming = refl;
      limit = refl;
    } in
    if-cases (Increased s) (leb id s.largest_peer) (λ _. (refl, same))
      (λ f.
        if-cases (Increased s)
          (ltb (max_available (release s id))
            (length (release s id).available + additional_available id s.largest_peer))
          (λ t. absurd (unfold max_available in ground (arith, f, t, a.near))) (λ _. (refl, more)))

-- Where the stream is put.
abbrev Opens : Session → ℕ → Option (Option Stream × Session) → Type 0
Opens s id r =
    (w : Session) × (r ≡ some (some (stream id), w))
    × (find_stream w.streams id ≡ some (stream id))
    × (w.resets ≡ s.resets)

open_incoming-Opens :
    (s : Session) (id : ℕ) (r : Bool × Session)
    → Accepts s id
    → Increased s r
    → Opens s id (open_incoming r id)
unfolding open_incoming
open_incoming-Opens s id (false, g) a i = absurd (ground (arith, i.0))
open_incoming-Opens s id (true, g) a i =
    let closed_off : is_open g id ≡ false =
      unfold is_open in ground (arith, a.absent, a.dynamic, i.1.streams) in
    let u : Session = record g { registered = id ∷ g.registered } in
    if-cases (Opens s id) (leb g.max_open_incoming (num_open_incoming g))
      (λ t. absurd (ground (arith, t, a.room, i.1.incoming, i.1.limit)))
      (λ _. (
        activate_stream u (stream id),
        create_data_stream_lem g id closed_off (i.1.secure ∙ a.secure),
        unfold activate_stream in ground arith,
        unfold activate_stream in i.1.resets,
      ))

create_missing-Opens : (s : Session) (id : ℕ) → Accepts s id → Opens s id (create_missing s id)
unfolding create_missing
create_missing-Opens s id a =
    if-cases (Opens s id) (is_closed s id) (λ t. absurd (ground (arith, t, a.fresh)))
      (λ _.
        if-cases (Opens s id) (not (is_incoming s id)) (λ t. absurd (ground (arith, t, a.comes)))
          (λ _.
            open_incoming-Opens s id (maybe_increase (release s id) id) a
              (maybe_increase-Increased s id a)))

get_or_create-Opens :
    (s : Session) (id : ℕ) → Accepts s id → Opens s id (get_or_create_dynamic_stream s id)
unfolding get_or_create_dynamic_stream
get_or_create-Opens s id a =
    subst (λ o. Opens s id (get_found s id o)) (sym a.absent)
      (unfold get_found in create_missing-Opens s id a)

-- What a frame does whose stream was just opened with no delegate.
frame-at :
    (s w : Session) (id : ℕ) (fin violates readable : Bool)
    → (id == 0) ≡ false
    → (id == crypto_stream_id) ≡ false
    → get_or_create_dynamic_stream s id ≡ some (some (stream id), w)
    → on_stream_frame s id fin violates readable ≡ (if readable then none else some w)
unfolding on_stream_frame deliver on_data_available
frame-at s w id fin violates readable z n e =
    if-cases (λ r. r ≡ (if readable then none else some w)) (id == 0)
      (λ t. absurd (ground (arith, t, z)))
      (λ _.
        if-cases (λ r. r ≡ (if readable then none else some w)) (id == crypto_stream_id)
          (λ t. absurd (ground (arith, t, n))) (λ _. ap (deliver id fin violates readable) e))

-- A frame for a stream that the session accepts from the peer opens the stream. The connection's
-- OnIncomingStream cancels nothing: the stream stays, no RST_STREAM frame is sent for it and it has
-- no delegate, so the first frame that makes its data readable calls through a null pointer.
pub unwanted_stream_stays :
    (s : Session) (id : ℕ) (fin violates : Bool)
    → Accepts s id
    → (w : Session) × (on_stream_frame s id fin violates false ≡ some w)
      × (find_stream w.streams id ≡ some (stream id))
      × (w.resets ≡ s.resets)
      × (on_stream_frame s id fin violates true ≡ none)
unwanted_stream_stays s id fin violates a =
    let (w, e, there, quiet) = get_or_create-Opens s id a in
    (
      w,
      frame-at s w id fin violates false a.real a.dynamic e,
      there,
      quiet,
      frame-at s w id fin violates true a.real a.dynamic e,
    )
