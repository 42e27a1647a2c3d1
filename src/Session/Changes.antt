-- ===== src/Session/Changes.antt =====
-- What the application and the data of a stream do to a session: identifiers of one's own, delegates,
-- and streams that drain or learn their length.
use puic.Prelude.{
  ℕ, ◌+◌, ◌-◌, ◌%◌, ◌^◌, ◌≤◌, ◌<◌, ◌≡◌, refl, sym, ap, arith, Bool, true, false, not, ◌&&◌, ◌||◌,
}
use puic.Prelude.{leb, some, if-cases, if◌then◌else◌, Option-cases, inl, inr, ◌∙◌}
use mathlib.Core.Path.{subst}
use puic.Session.{
  Session, Stream, find_stream, replace_stream, is_incoming, is_taken, is_closed, is_open, has_key,
  erase_key, max_available, create_outgoing, create_stream, set_delegate, delegate_found,
  stream_draining, drain_found, on_final_byte_offset, num_open_outgoing,
}
use puic.Session.Maps.{
  count-replace_stream, replace_stream-IsMap, All-replace_stream, All-find_stream, All-map,
  find_stream-replace_stream, find_stream-id,
}
use puic.Session.Counting.{gone-has_key, erase_key-IsKeyMap, All-erase_key}
use puic.Session.Counting.{count_keys-erase_key}
use puic.Session.Frames.{FineGet, close_connection-Fine, create_data_stream-FineGet}
use puic.Session.Taken.{IsValid, IsGone, IsUsed, theirs, Kept, Kept-of_taken}

-- A stream changes, not its identifier.
abbrev pub change : Session → Stream → ℕ → Session
change s u n = record s { streams = replace_stream s.streams u; num_draining = n }

module _ (side : ℕ) (s : Session) (t u : Stream) (n : ℕ) (v : IsValid side s)
    (e : find_stream s.streams u.id ≡ some t) (ends : (not u.draining || u.has_final_offset) ≡ true)
    (drained : n + (if t.draining && theirs side t.id then 1 else 0)
      ≡ s.num_draining + (if u.draining && theirs side u.id then 1 else 0))
    (grows : s.num_draining ≤ n) where
  same_id : t.id ≡ u.id
  same_id = find_stream-id s.streams u.id t e

  pub change-Kept : Kept s (change s u n)
  unfolding is_closed is_taken
  change-Kept x h = ground (arith, h, find_stream-replace_stream s.streams u x)

  IsUsed-here : IsUsed s u.id
  IsUsed-here =
      subst (IsUsed s) same_id
        (All-find_stream (λ (w : Stream). IsUsed s w.id) s.streams u.id t v.used e)

  pub change-IsValid : IsValid side (change s u n)
  change-IsValid = record {
    own = v.own;
    parity = v.parity;
    started = v.started;
    unique = replace_stream-IsMap s.streams u v.unique;
    used =
        unfold is_taken in
        All-replace_stream (λ (w : Stream). IsUsed s w.id) s.streams u IsUsed-here v.used;
    final =
        All-replace_stream (λ (w : Stream). (not w.draining || w.has_final_offset) ≡ true) s.streams
          u ends v.final;
    incoming = ground (
      arith,
      v.incoming,
      same_id,
      count-replace_stream (λ (w : Stream). theirs side w.id) s.streams u t e,
    );
    drains = ground (
      arith,
      v.drains,
      drained,
      count-replace_stream (λ (w : Stream). w.draining && theirs side w.id) s.streams u t e,
    );
    keys = v.keys;
    gone =
        All-map (IsGone s) (IsGone (change s u n)) (λ k h. change-Kept k.0 h) s.locally_closed
          v.gone;
    counted = v.counted;
    few = omega (arith, v.few, grows);
    fewer = unfold max_available in v.fewer;
  }

final_at :
    (side : ℕ) (s : Session) (id : ℕ) (t : Stream)
    → IsValid side s
    → find_stream s.streams id ≡ some t
    → (not t.draining || t.has_final_offset) ≡ true
final_at side s id t v e =
    All-find_stream (λ (w : Stream). (not w.draining || w.has_final_offset) ≡ true) s.streams id t
      v.final e

at_id :
    (s : Session) (id : ℕ) (t : Stream)
    → find_stream s.streams id ≡ some t
    → find_stream s.streams t.id ≡ some t
at_id s id t e = ap (find_stream s.streams) (find_stream-id s.streams id t e) ∙ e

pub set_delegate-IsValid :
    (side : ℕ) (s : Session) (id : ℕ)
    → IsValid side s
    → IsValid side (set_delegate s id) × Kept s (set_delegate s id)
unfolding set_delegate
set_delegate-IsValid side s id v = elim (Option-cases (find_stream s.streams id)) [
  | inl e ↦
      subst
        (λ o.
          let u : Session = record s { streams = delegate_found s.streams o } in
          IsValid side u × Kept s u)
        (sym e) (v, λ x c. c)
  | inr (t, e) ↦
      subst
        (λ o.
          let u : Session = record s { streams = delegate_found s.streams o } in
          IsValid side u × Kept s u)
        (sym e)
        (
          change-IsValid side s t (record t { delegate = true }) s.num_draining v (at_id s id t e)
              (final_at side s id t v e) refl (omega arith),
          change-Kept side s t (record t { delegate = true }) s.num_draining v (at_id s id t e)
              (final_at side s id t v e) refl (omega arith),
        )
]

-- A stream drains when both sides have sent a FIN, so its length is known.
pub stream_draining-IsValid :
    (side : ℕ) (s : Session) (id : ℕ) (t : Stream)
    → find_stream s.streams id ≡ some t
    → t.has_final_offset ≡ true
    → IsValid side s
    → IsValid side (stream_draining s id) × Kept s (stream_draining s id)
unfolding stream_draining
stream_draining-IsValid side s id t e f v =
    let n : ℕ = if is_incoming s t.id then s.num_draining + 1 else s.num_draining in
    subst (λ o. IsValid side (drain_found s o) × Kept s (drain_found s o)) (sym e)
      (if-cases (λ (u : Session). IsValid side u × Kept s u) t.draining (λ _. (v, λ x c. c))
        (λ d. (
          change-IsValid side s t (record t { draining = true }) n v (at_id s id t e)
              (ground (arith, f)) (unfold is_incoming in ground (arith, d, v.own))
              (unfold is_incoming in ground arith),
          change-Kept side s t (record t { draining = true }) n v (at_id s id t e)
              (ground (arith, f)) (unfold is_incoming in ground (arith, d, v.own))
              (unfold is_incoming in ground arith),
        )))

abbrev forget : Session → ℕ → Session
forget s id = record s {
  locally_closed = erase_key s.locally_closed id;
  num_locally_closed = if is_incoming s id then s.num_locally_closed - 1 else s.num_locally_closed;
}

forget-Kept : (s : Session) (id : ℕ) → Kept s (forget s id)
unfolding is_closed
forget-Kept s id x c = c

forget-IsValid :
    (side : ℕ) (s : Session) (id : ℕ)
    → has_key s.locally_closed id ≡ true
    → IsValid side s
    → IsValid side (forget s id)
forget-IsValid side s id h v =
    let less = count_keys-erase_key (theirs side) s.locally_closed id v.keys h in
    record {
      own = v.own;
      parity = v.parity;
      started = v.started;
      unique = v.unique;
      used = unfold is_taken in v.used;
      final = v.final;
      incoming = v.incoming;
      drains = v.drains;
      keys = erase_key-IsKeyMap s.locally_closed id v.keys;
      gone = unfold is_closed in All-erase_key (IsGone s) s.locally_closed id v.gone;
      counted = unfold is_incoming in ground (arith, less, v.counted, v.own);
      few = unfold is_incoming in ground (arith, v.few);
      fewer = unfold max_available in v.fewer;
    }

pub on_final_byte_offset-IsValid :
    (side : ℕ) (s : Session) (id : ℕ) (violates : Bool)
    → IsValid side s
    → IsValid side (on_final_byte_offset s id violates)
      × Kept s (on_final_byte_offset s id violates)
unfolding on_final_byte_offset
on_final_byte_offset-IsValid side s id violates v =
    let P : Session → Type 0 = λ u. IsValid side u × Kept s u in
    if-cases P (not (has_key s.locally_closed id)) (λ _. (v, λ x c. c))
      (λ f.
        if-cases P violates (λ _. close_connection-Fine side s v)
          (λ _. (forget-IsValid side s id (ground (arith, f)) v, forget-Kept s id)))

-- The next identifier of one's own is taken.
abbrev pub numbered : Session → Session
numbered s = record s { next_outgoing = (s.next_outgoing + 2) % 2 ^ 32 }

module _ (side : ℕ) (s : Session) (v : IsValid side s) (small : s.next_outgoing + 2 < 2 ^ 32) where
  numbered-taken : (x : ℕ) → is_taken s x ≡ true → is_taken (numbered s) x ≡ true
  unfolding is_taken
  numbered-taken x h = ground (arith, h, small)

  numbered-Kept : Kept s (numbered s)
  numbered-Kept = Kept-of_taken s (numbered s) refl numbered-taken

  numbered-IsValid : IsValid side (numbered s)
  numbered-IsValid = record {
    own = ground (arith, v.own, small);
    parity = ground (arith, v.parity, small);
    started = ground (arith, v.started, small);
    unique = v.unique;
    used =
        All-map (λ (t : Stream). IsUsed s t.id) (λ (t : Stream). IsUsed (numbered s) t.id)
          (λ t h. ground (arith, h, numbered-taken t.id)) s.streams v.used;
    final = v.final;
    incoming = v.incoming;
    drains = v.drains;
    keys = v.keys;
    gone =
        All-map (IsGone s) (IsGone (numbered s)) (λ k h. numbered-Kept k.0 h) s.locally_closed
          v.gone;
    counted = v.counted;
    few = v.few;
    fewer = unfold max_available in v.fewer;
  }

  not_taken : is_taken s s.next_outgoing ≡ false
  unfolding is_taken
  not_taken = ground arith

  fresh_here : is_closed s s.next_outgoing ≡ false
  fresh_here = unfold is_closed in ground (arith, not_taken)

  absent_here : is_open s s.next_outgoing ≡ false
  absent_here = elim (Option-cases (find_stream s.streams s.next_outgoing)) [
    | inl e ↦ unfold is_open in ground (arith, e, v.started)
    | inr (t, e) ↦ absurd (
        ground (
          arith,
          not_taken,
          subst (IsUsed s) (find_stream-id s.streams s.next_outgoing t e) (
              All-find_stream (λ (w : Stream). IsUsed s w.id) s.streams s.next_outgoing t v.used e),
        ))
  ]

  pub create_stream-FineGet : FineGet side s (create_stream s)
  unfolding create_stream create_outgoing
  create_stream-FineGet =
      if-cases (FineGet side s) (leb s.max_open_outgoing (num_open_outgoing s)) (λ _. (v, λ x c. c))
        (λ _.
          create_data_stream-FineGet side s (numbered s) s.next_outgoing numbered-IsValid
            numbered-Kept fresh_here (unfold is_open in absent_here)
            (unfold is_taken in ground (arith, small))
            (gone-has_key s s.locally_closed s.next_outgoing v.gone fresh_here)
            (ground (arith, v.few, v.own)))
