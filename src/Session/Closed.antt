-- ===== src/Session/Closed.antt =====
-- What a frame for a closed identifier does.
use puic.Prelude.{ℕ, ◌≡◌, refl, sym, ap, arith, Bool, true, false}
use puic.Prelude.{none, some, if-cases, if◌then◌else◌, Option-cases, inl, inr}
use mathlib.Core.Path.{subst}
use puic.Session.{
  Session, find_stream, is_closed, is_open, on_stream_frame, on_final_byte_offset, get_found,
  create_missing, get_or_create_dynamic_stream,
}
use puic.Session.{crypto_stream_id, deliver, without_stream, close_connection}
use puic.Prelude.{◌==◌, ◌∙◌}

pub get_or_create-closed :
    (s : Session) (x : ℕ) → is_closed s x ≡ true → get_or_create_dynamic_stream s x ≡ some (none, s)
unfolding get_or_create_dynamic_stream get_found create_missing
get_or_create-closed s x c = elim (Option-cases (find_stream s.streams x)) [
  | inl e ↦
      subst (λ o. get_found s x o ≡ some (none, s)) (sym e)
        (if-cases (λ r. r ≡ some (none, s)) (is_closed s x) (λ _. refl)
          (λ f. absurd (ground (arith, c, f))))
  | inr (t, e) ↦ absurd (unfold is_closed is_open in ground (arith, c, e))
]

module _ {ℓ} {A : Type ℓ} where
  if-true : (x y : A) {b : Bool} → b ≡ true → (if b then x else y) ≡ x
  if-true x y e = rw e refl

  if-false : (x y : A) {b : Bool} → b ≡ false → (if b then x else y) ≡ y
  if-false x y e = rw e refl

-- What a frame for a closed identifier leaves.
abbrev pub after_closed : Session → ℕ → Bool → Bool → Session
after_closed s x fin violates =
    if x == 0 then close_connection s else if fin then on_final_byte_offset s x violates else s

pub on_stream_frame-closed :
    (s : Session) (x : ℕ) (fin violates readable : Bool)
    → is_closed s x ≡ true
    → on_stream_frame s x fin violates readable ≡ some (after_closed s x fin violates)
unfolding on_stream_frame deliver without_stream
on_stream_frame-closed s x fin violates readable c =
    let g = get_or_create-closed s x c in
    let n : (x == crypto_stream_id) ≡ false = unfold is_closed is_open in ground (arith, c) in
    let d : deliver x fin violates readable (get_or_create_dynamic_stream s x)
        ≡ some (if fin then on_final_byte_offset s x violates else s) =
      ap (deliver x fin violates readable) g in
    if-cases (λ r. r ≡ some (after_closed s x fin violates)) (x == 0)
      (λ t. ap some (sym (if-true _ _ t)))
      (λ f.
        if-cases (λ r. r ≡ some (after_closed s x fin violates)) (x == crypto_stream_id)
          (λ t. absurd (ground (arith, t, n))) (λ _. d ∙ ap some (sym (if-false _ _ f))))
