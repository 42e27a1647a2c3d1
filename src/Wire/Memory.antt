-- ===== src/Wire/Memory.antt =====
-- memcpy into a buffer: what lies in it before and after.
use puic.Prelude.{ℕ, zero, suc, ◌+◌, ◌≤◌, ◌≡◌, refl, sym, ap, ◌∙◌, arith}
use puic.Prelude.{List, [], ◌∷◌, ◌++◌, append_assoc, length, take, drop, length-append}
use puic.Prelude.{take-length_append, length-take, length-drop}

module _ {ℓ} {A : Type ℓ} where
  -- The buffer with `bytes` at `offset`.
  unfoldable pub overwrite : List A → ℕ → List A → List A
  overwrite buffer offset bytes =
      take offset buffer ++ (bytes ++ drop (offset + length bytes) buffer)

  pub length-overwrite :
      (buffer : List A) (offset : ℕ) (bytes : List A)
      → offset + length bytes ≤ length buffer
      → length (overwrite buffer offset bytes) ≡ length buffer
  unfolding overwrite
  length-overwrite buffer offset bytes h = omega (
    arith,
    length-append (take offset buffer) (bytes ++ drop (offset + length bytes) buffer),
    length-append bytes (drop (offset + length bytes) buffer),
    length-take offset buffer,
    length-drop (offset + length bytes) buffer,
  )

  take_of_append : (n : ℕ) (xs ys : List A) → length xs ≡ n → take n (xs ++ ys) ≡ xs
  take_of_append n xs ys e = ap (λ k. take k (xs ++ ys)) (sym e) ∙ take-length_append xs ys

  -- Writing just behind the first `offset` elements extends them.
  pub take-overwrite :
      (buffer : List A) (offset : ℕ) (bytes : List A)
      → offset ≤ length buffer
      → take (offset + length bytes) (overwrite buffer offset bytes) ≡ take offset buffer ++ bytes
  unfolding overwrite
  take-overwrite buffer offset bytes h =
      ap (take (offset + length bytes))
        (sym (append_assoc (take offset buffer) bytes (drop (offset + length bytes) buffer)))
      ∙ take_of_append _ (take offset buffer ++ bytes) _
          (omega (arith, length-append (take offset buffer) bytes, length-take offset buffer))

module _ {ℓ} {A : Type ℓ} where
  drop_nil : (n : ℕ) → drop {A = A} n [] ≡ []
  drop_nil zero = refl
  drop_nil (suc n) = refl

  pub take-take : (m n : ℕ) (xs : List A) → m ≤ n → take m (take n xs) ≡ take m xs
  take-take zero n xs h = refl
  take-take (suc m) zero xs h = absurd (omega arith)
  take-take (suc m) (suc n) [] h = refl
  take-take (suc m) (suc n) (x ∷ xs) h = ap (λ t. x ∷ t) (take-take m n xs (omega arith))

  pub drop-drop : (m n : ℕ) (xs : List A) → drop m (drop n xs) ≡ drop (n + m) xs
  drop-drop m zero xs = let e : m ≡ 0 + m = omega arith in ap (λ k. drop k xs) e
  drop-drop m (suc n) [] = drop_nil m ∙ sym (drop_nil (suc n + m))
  drop-drop m (suc n) (x ∷ xs) =
      let e : suc (n + m) ≡ suc n + m = omega arith in
      drop-drop m n xs ∙ ap (λ k. drop k (x ∷ xs)) e
