-- ===== src/Session/Frames.antt =====
-- A frame of the peer: GetOrCreateDynamicStream keeps the session well formed.
use puic.Prelude.{ℕ, ◌+◌, ◌^◌, ◌≤◌, ◌<◌, ◌≡◌, sym, ap, arith, Bool, true, false, not}
use puic.Prelude.{
  ◌==◌, ltb, leb, Option, none, some, List, ◌∷◌, if-cases, if◌then◌else◌, length, Option-cases, inl,
  inr, Bool-cases, leb→le, leb_false→lt, ltb_false→le,
}
use puic.Session.{
  Session, Stream, stream, find_stream, is_incoming, is_taken, is_closed, is_open, has_key,
  activate_stream, max_available, close_connection, send_rst_stream, close_stream_inner,
  close_found, register_stream, on_incoming_stream, cancel_stream, create_data_stream, map_option,
}
use puic.Session.{
  open_incoming, maybe_increase, create_missing, get_found, get_or_create_dynamic_stream,
  num_open_incoming, additional_available, crypto_stream_id,
}
use mathlib.Core.Path.{subst}
use puic.Prelude.{mem-remove_id}
use puic.Session.Counting.{gone-has_key}
use puic.Session.Closing.{Fine, close_found-Fine}
use puic.Session.Opening.{same-IsValid, release-IsValid, raise-IsValid, activate_stream-IsValid}
use puic.Session.Taken.{
  IsValid, IsUsed, theirs, Kept, release, raise, release-Kept, raise-Kept, release-taken_self,
  raise-taken_self, activate_stream-closed,
}

-- The stream is not in the map yet when the delegate cancels it, so nothing is cancelled.
pub register_stream_lem :
    (s : Session) (id : ℕ)
    → is_open s id ≡ false
    → register_stream s id ≡ some (record s { registered = id ∷ s.registered })
unfolding register_stream on_incoming_stream cancel_stream is_open
register_stream_lem s id h = ground (arith, h)

abbrev registered_stream : ℕ → Session → Option Stream × Session
registered_stream id u = (some (stream id), activate_stream u (stream id))

pub create_data_stream_lem :
    (s : Session) (id : ℕ)
    → is_open s id ≡ false
    → s.encrypted ≡ true
    → create_data_stream s id
      ≡ some (
        some (stream id),
        activate_stream (record s { registered = id ∷ s.registered }) (stream id),
      )
unfolding create_data_stream
create_data_stream_lem s id h e =
    if-cases (λ r. r ≡ some (registered_stream id (record s { registered = id ∷ s.registered })))
      (not s.encrypted) (λ f. absurd (ground (arith, e, f)))
      (λ _. ap (map_option (registered_stream id)) (register_stream_lem s id h))

pub close_connection-Fine :
    (side : ℕ) (s : Session)
    → IsValid side s
    → IsValid side (close_connection s) × Kept s (close_connection s)
unfolding close_connection
close_connection-Fine side s v =
    (same-IsValid side s s.registered s.resets s.preset false v, λ x h. unfold is_closed in h)

Fine-of_resets :
    (side : ℕ) (s : Session) (resets : List ℕ) (r : Option Session)
    → Fine side (record s { resets = resets }) r
    → Fine side s r
Fine-of_resets side s resets none h = tt
Fine-of_resets side s resets (some u) h = (h.0, λ x c. h.1 x (unfold is_closed in c))

pub send_rst_stream-Fine :
    (side : ℕ) (s : Session) (id : ℕ) → IsValid side s → Fine side s (send_rst_stream s id)
unfolding send_rst_stream close_stream_inner
send_rst_stream-Fine side s id v =
    if-cases (Fine side s) (id == crypto_stream_id) (λ _. (v, λ x h. h))
      (λ _.
        if-cases (λ (u : Session). Fine side s (close_found u (find_stream u.streams id) true))
          s.connected
          (λ _.
            Fine-of_resets side s (id ∷ s.resets)
              (close_found (record s { resets = id ∷ s.resets }) (find_stream s.streams id) true)
              (close_found-Fine side (record s { resets = id ∷ s.resets }) id true
                (same-IsValid side s s.registered (id ∷ s.resets) s.preset s.connected v)))
          (λ _. close_found-Fine side s id true v))

-- The same for operations that return a stream too.
abbrev pub FineGet : ℕ → Session → Option (Option Stream × Session) → Type 0
FineGet side s none = Unit
FineGet side s (some (t, u)) = IsValid side u × Kept s u

Fine-trans :
    (side : ℕ) (s u : Session) → Kept s u → (r : Option Session) → Fine side u r → Fine side s r
Fine-trans side s u kept none h = tt
Fine-trans side s u kept (some w) h = (h.0, λ x c. h.1 x (kept x c))

FineGet-of_close :
    (side : ℕ) (s : Session) (r : Option Session)
    → Fine side s r
    → FineGet side s (map_option (λ (u : Session). (none, u)) r)
FineGet-of_close side s none h = tt
FineGet-of_close side s (some u) h = h

-- A stream whose identifier was not used before, in a session that has made it so.
module _ (side : ℕ) (s u : Session) (id : ℕ) (v : IsValid side u) (kept : Kept s u)
    (fresh : is_closed s id ≡ false) (not_open : is_open u id ≡ false)
    (taken : is_taken u id ≡ true) (no_key : has_key u.locally_closed id ≡ false) where
  absent : find_stream u.streams id ≡ none
  absent = unfold is_open in ground (arith, not_open, Option-cases (find_stream u.streams id))

  is_used : IsUsed u id
  is_used = unfold is_open in ground (arith, not_open, taken)

  abbrev activated : Session
  activated = activate_stream (record u { registered = id ∷ u.registered }) (stream id)

  activated-Kept : Kept s activated
  activated-Kept x c = elim (Bool-cases (id == x)) [
    | inl e ↦
        let same : id ≡ x = ground (arith, e) in
        absurd (ground (arith, ap (is_closed s) same, fresh, c))
    | inr n ↦
        activate_stream-closed (record u { registered = id ∷ u.registered }) (stream id) x n
          (unfold is_closed in kept x c)
  ]

  pub create_data_stream-FineGet :
      (if theirs side id then 1 else 0) + u.num_incoming + u.num_locally_closed
        ≤ u.max_open_incoming + u.num_draining
      → FineGet side s (create_data_stream u id)
  create_data_stream-FineGet room = elim (Bool-cases u.encrypted) [
    | inl e ↦ subst (FineGet side s) (sym (create_data_stream_lem u id not_open e)) (
      activate_stream-IsValid side (record u { registered = id ∷ u.registered }) id
          (same-IsValid side u (id ∷ u.registered) u.resets u.preset u.connected v) absent
          (unfold is_taken in is_used) no_key room,
      activated-Kept,
    )
    | inr e ↦
        unfold create_data_stream in
        if-cases (FineGet side s) (not u.encrypted) (λ _. (v, kept))
          (λ f. absurd (ground (arith, e, f)))
  ]

  pub open_incoming-FineGet : FineGet side s (open_incoming (true, u) id)
  unfolding open_incoming
  open_incoming-FineGet =
      if-cases (FineGet side s) (leb u.max_open_incoming (num_open_incoming u))
        (λ _.
          FineGet-of_close side s (send_rst_stream u id)
            (Fine-trans side s u kept (send_rst_stream u id) (send_rst_stream-Fine side u id v)))
        (λ f. create_data_stream-FineGet (unfold num_open_incoming in ground (arith, f, v.few)))

FineGet-of_closed :
    (side : ℕ) (s u : Session)
    → Kept s u
    → IsValid side u
    → FineGet side s (some (none, close_connection u))
FineGet-of_closed side s u kept v =
    let r = close_connection-Fine side u v in (r.0, λ x c. r.1 x (kept x c))

module _ (side : ℕ) (s : Session) (id : ℕ) (v : IsValid side s) (small : id < 2 ^ 32) where
  -- An incoming identifier that is neither open nor closed.
  module _ (not_open : is_open s id ≡ false) (fresh : is_closed s id ≡ false)
      (comes : is_incoming s id ≡ true) where
    no_key_here : has_key s.locally_closed id ≡ false
    no_key_here = gone-has_key s s.locally_closed id v.gone fresh

    maybe_increase-FineGet : FineGet side s (open_incoming (maybe_increase (release s id) id) id)
    unfolding maybe_increase
    maybe_increase-FineGet =
        let w : IsValid side (release s id) = release-IsValid side s id v in
        if-cases (λ (r : Bool × Session). FineGet side s (open_incoming r id))
          (leb id s.largest_peer)
          (λ t.
            open_incoming-FineGet side s (release s id) id w (release-Kept s id) fresh
              (unfold is_open in not_open) (release-taken_self s id comes (leb→le _ _ t))
              no_key_here)
          (λ f.
            if-cases (λ (r : Bool × Session). FineGet side s (open_incoming r id))
              (ltb (max_available (release s id))
                (length (release s id).available + additional_available id s.largest_peer))
              (λ _.
                unfold open_incoming in
                FineGet-of_closed side s (release s id) (release-Kept s id) w)
              (λ g.
                open_incoming-FineGet side s (raise (release s id) id) id
                  (raise-IsValid side (release s id) id (unfold is_incoming in comes)
                    (leb_false→lt _ _ f) small (ltb_false→le _ _ g) w)
                  (λ x c.
                    raise-Kept (release s id) id (leb_false→lt _ _ f) x (release-Kept s id x c))
                  fresh (unfold is_open in not_open)
                  (raise-taken_self (release s id) id (unfold is_incoming in comes)
                    (ground (arith, mem-remove_id id id s.available)))
                  no_key_here))

  create_missing-FineGet :
      find_stream s.streams id ≡ none
      → (id == crypto_stream_id) ≡ false
      → FineGet side s (create_missing s id)
  unfolding create_missing
  create_missing-FineGet e n =
      let not_open : is_open s id ≡ false = unfold is_open in ground (arith, e, n) in
      if-cases (FineGet side s) (is_closed s id) (λ _. (v, λ x c. c))
        (λ f.
          if-cases (FineGet side s) (not (is_incoming s id))
            (λ _. FineGet-of_closed side s s (λ x c. c) v)
            (λ g. maybe_increase-FineGet not_open f (ground (arith, g))))

  pub get_or_create_dynamic_stream-FineGet :
      (id == crypto_stream_id) ≡ false → FineGet side s (get_or_create_dynamic_stream s id)
  unfolding get_or_create_dynamic_stream
  get_or_create_dynamic_stream-FineGet n = elim (Option-cases (find_stream s.streams id)) [
    | inl e ↦
        subst (λ o. FineGet side s (get_found s id o)) (sym e)
          (unfold get_found in create_missing-FineGet e n)
    | inr (t, e) ↦
        subst (λ o. FineGet side s (get_found s id o)) (sym e) (unfold get_found in (v, λ x c. c))
  ]
