-- ===== src/Session/Closing.antt =====
-- Closing a stream keeps the session well formed.
use puic.Prelude.{ℕ, ◌+◌, ◌≡◌, ap, arith, Bool, true, false, not, ◌&&◌, ◌||◌, ◌∙◌}
use puic.Prelude.{Option, none, some, All, if-cases, if◌then◌else◌, Bool-cases, inl, inr}
use puic.Session.{
  Session, Stream, find_stream, erase_stream, is_incoming, is_taken, is_closed, take_out,
  max_available, insert_locally_closed, has_key,
}
use puic.Session.Maps.{
  count, count-erase_stream, erase_stream-IsMap, All-erase_stream, All-find_stream, All-map,
  find_stream-erase_stream,
}
use puic.Session.Counting.{gone-has_key, erase_key-absent}
use puic.Session.Maps.{find_stream-id}
use puic.Session.{close_found}
use puic.Prelude.{Option-cases}
use puic.Session.Taken.{Kept, IsValid, IsGone, IsUsed, IsKeyMap, theirs, count_keys, take_out-Kept}

module _ (side : ℕ) (s : Session) (t : Stream) (v : IsValid side s)
    (e : find_stream s.streams t.id ≡ some t) where
  IsUsed-here : IsUsed s t.id
  IsUsed-here = All-find_stream (λ (u : Stream). IsUsed s u.id) s.streams t.id t v.used e

  final_here : (not t.draining || t.has_final_offset) ≡ true
  final_here =
      All-find_stream (λ (u : Stream). (not u.draining || u.has_final_offset) ≡ true) s.streams t.id
        t v.final e

  count_incoming :
      count (λ (u : Stream). theirs side u.id) s.streams
      ≡ count (λ (u : Stream). theirs side u.id) (erase_stream s.streams t.id)
        + (if theirs side t.id then 1 else 0)
  count_incoming = count-erase_stream (λ (u : Stream). theirs side u.id) s.streams t.id t v.unique e

  count_drains :
      count (λ (u : Stream). u.draining && theirs side u.id) s.streams
      ≡ count (λ (u : Stream). u.draining && theirs side u.id) (erase_stream s.streams t.id)
        + (if t.draining && theirs side t.id then 1 else 0)
  count_drains =
      count-erase_stream (λ (u : Stream). u.draining && theirs side u.id) s.streams t.id t v.unique
        e

  side_here : is_incoming s t.id ≡ theirs side t.id
  unfolding is_incoming
  side_here = ground (arith, v.own)

  not_key : has_key s.locally_closed t.id ≡ false
  not_key = gone-has_key s s.locally_closed t.id v.gone (unfold is_closed in ground (arith, e))

  module _ (locally_reset : Bool) where
    closed_here : is_closed (take_out s t locally_reset) t.id ≡ true
    unfolding take_out is_closed is_taken
    closed_here = ground (arith, IsUsed-here, find_stream-erase_stream s.streams t.id t.id)

    still-IsGone : All (IsGone (take_out s t locally_reset)) s.locally_closed
    still-IsGone =
        All-map (IsGone s) (IsGone (take_out s t locally_reset))
          (λ k h. take_out-Kept s t locally_reset k.0 h) s.locally_closed v.gone

    kept_keys :
        (P : ℕ × ℕ → Type 0)
        → P (t.id, t.highest_offset)
        → All P s.locally_closed
        → All P (take_out s t locally_reset).locally_closed
    unfolding take_out insert_locally_closed
    kept_keys P new old =
        if-cases (All P) t.has_final_offset (λ _. old)
          (λ _. rw (erase_key-absent s.locally_closed t.id not_key) (new, old))

    kept_count :
        (take_out s t locally_reset).num_locally_closed
        ≡ count_keys (theirs side) (take_out s t locally_reset).locally_closed
    unfolding take_out insert_locally_closed
    kept_count = elim (Bool-cases t.has_final_offset) [
      | inl f ↦ rw f (ground (arith, v.counted))
      | inr f ↦ rw f (
          rw (erase_key-absent s.locally_closed t.id not_key)
            (ground (arith, v.counted, side_here)))
    ]

    pub take_out-IsValid : IsValid side (take_out s t locally_reset)
    take_out-IsValid = record {
      own = unfold take_out in v.own;
      parity = unfold take_out in v.parity;
      started = unfold take_out in v.started;
      unique = unfold take_out in erase_stream-IsMap s.streams t.id v.unique;
      used =
          unfold take_out is_taken in
          All-erase_stream (λ (u : Stream). IsUsed s u.id) s.streams t.id v.used;
      final =
          unfold take_out in
          All-erase_stream (λ (u : Stream). (not u.draining || u.has_final_offset) ≡ true) s.streams
            t.id v.final;
      incoming = unfold take_out in ground (arith, v.incoming, count_incoming, side_here);
      drains = unfold take_out in ground (arith, v.drains, count_drains, side_here);
      keys =
          unfold take_out in
          if-cases IsKeyMap t.has_final_offset (λ _. v.keys)
            (λ _. rw (erase_key-absent s.locally_closed t.id not_key) (not_key, v.keys));
      gone = kept_keys (IsGone (take_out s t locally_reset)) closed_here still-IsGone;
      counted = kept_count;
      few =
          unfold take_out in
          ground (
            arith, v.few, v.incoming, v.drains, count_incoming, count_drains, side_here, final_here,
          );
      fewer = unfold take_out max_available in v.fewer;
    }

-- What an operation that may end at a null delegate leaves.
abbrev pub Fine : ℕ → Session → Option Session → Type 0
Fine side s none = Unit
Fine side s (some u) = IsValid side u × Kept s u

pub close_found-Fine :
    (side : ℕ) (s : Session) (id : ℕ) (locally_reset : Bool)
    → IsValid side s
    → Fine side s (close_found s (find_stream s.streams id) locally_reset)
unfolding close_found
close_found-Fine side s id locally_reset v = elim (Option-cases (find_stream s.streams id)) [
  | inl e ↦ rw e (v, λ x h. h)
  | inr (t, e) ↦
      let here : find_stream s.streams t.id ≡ some t =
        ap (find_stream s.streams) (find_stream-id s.streams id t e) ∙ e in
      rw e (
        if-cases (Fine side s) t.delegate
          (λ _. (take_out-IsValid side s t v here locally_reset, take_out-Kept s t locally_reset))
          (λ _. tt))
]
