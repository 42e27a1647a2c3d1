-- ===== src/Session/Counting.antt =====
-- The streams that were closed before their length was known: keys that come and go once.
use puic.Prelude.{ℕ, ◌+◌, ◌≡◌, refl, ap, arith, Bool, true, false, ◌==◌, List, [], ◌∷◌, All}
use puic.Prelude.{if-cases, if◌then◌else◌, Bool-cases, inl, inr, ◌&&◌, not}
use puic.Session.{Session, erase_key, has_key, is_closed}
use puic.Session.Taken.{count_keys, IsKeyMap, IsGone}

pub has_key-erase_key :
    (m : List (ℕ × ℕ)) (k j : ℕ) → has_key (erase_key m k) j ≡ (has_key m j && not (k == j))
has_key-erase_key [] k j = refl
has_key-erase_key ((i, v) ∷ m) k j = ground (arith, has_key-erase_key m k j)

pub erase_key-absent : (m : List (ℕ × ℕ)) (k : ℕ) → has_key m k ≡ false → erase_key m k ≡ m
erase_key-absent [] k h = refl
erase_key-absent ((i, v) ∷ m) k h = ground (arith, erase_key-absent m k)

pub erase_key-IsKeyMap : (m : List (ℕ × ℕ)) (k : ℕ) → IsKeyMap m → IsKeyMap (erase_key m k)
erase_key-IsKeyMap [] k h = tt
erase_key-IsKeyMap ((i, v) ∷ m) k h =
    if-cases IsKeyMap (i == k) (λ _. erase_key-IsKeyMap m k h.1)
      (λ _. (ground (arith, h.0, has_key-erase_key m k i), erase_key-IsKeyMap m k h.1))

pub All-erase_key {κ} :
    (P : ℕ × ℕ → Type κ) (m : List (ℕ × ℕ)) (k : ℕ) → All P m → All P (erase_key m k)
All-erase_key P [] k h = tt
All-erase_key P ((i, v) ∷ m) k h =
    if-cases (All P) (i == k) (λ _. All-erase_key P m k h.1) (λ _. (h.0, All-erase_key P m k h.1))

pub count_keys-erase_key :
    (p : ℕ → Bool) (m : List (ℕ × ℕ)) (k : ℕ)
    → IsKeyMap m
    → has_key m k ≡ true
    → count_keys p m ≡ count_keys p (erase_key m k) + (if p k then 1 else 0)
count_keys-erase_key p [] k d h = cc
count_keys-erase_key p ((i, v) ∷ m) k d h = elim (Bool-cases (i == k)) [
  | inl e ↦
      let same : i ≡ k = ground (arith, e) in
      rw e (rw (erase_key-absent m k (ground (arith, same, d.0))) (ground (arith, same)))
  | inr e ↦ rw e (omega (arith, count_keys-erase_key p m k d.1 (ground (arith, e, h))))
]

-- Only closed identifiers are kept.
pub gone-has_key :
    (s : Session) (m : List (ℕ × ℕ)) (id : ℕ)
    → All (IsGone s) m
    → is_closed s id ≡ false
    → has_key m id ≡ false
gone-has_key s [] id h c = refl
gone-has_key s ((i, v) ∷ m) id h c = elim (Bool-cases (i == id)) [
  | inl e ↦
      let same : i ≡ id = ground (arith, e) in
      absurd (ground (arith, ap (is_closed s) same, h.0, c))
  | inr e ↦ ground (arith, e, gone-has_key s m id h.1 c)
]

pub All-without {κ} :
    (P Q : ℕ × ℕ → Type κ) (m : List (ℕ × ℕ)) (id : ℕ)
    → ((k : ℕ × ℕ) → (id == k.0) ≡ false → P k → Q k)
    → has_key m id ≡ false
    → All P m
    → All Q m
All-without P Q [] id f n h = tt
All-without P Q ((i, v) ∷ m) id f n h =
    (f (i, v) (ground (arith, n)) h.0, All-without P Q m id f (ground (arith, n)) h.1)
