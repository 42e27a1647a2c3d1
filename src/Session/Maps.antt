-- ===== src/Session/Maps.antt =====
-- The maps of a session: one stream to an identifier, and what erasing and replacing leaves.
use puic.Prelude.{ℕ, ◌+◌, ◌≡◌, refl, arith, Bool, ◌&&◌, ◌==◌}
use puic.Prelude.{none, some, List, [], ◌∷◌, All, if-cases, if◌then◌else◌, Bool-cases, inl, inr}
use mathlib.Core.Path.{subst}
use puic.Session.{Stream, find_stream, erase_stream, replace_stream, found}

-- Every identifier has one stream.
abbrev pub IsMap : List Stream → Type 0
IsMap [] = Unit
IsMap (t ∷ ts) = (find_stream ts t.id ≡ none) × IsMap ts

abbrev pub count : (Stream → Bool) → List Stream → ℕ
count p [] = 0
count p (t ∷ ts) = (if p t then 1 else 0) + count p ts

pub All-map {ℓ κ} :
    {A : Type ℓ} (P Q : A → Type κ) → ((a : A) → P a → Q a) → (xs : List A) → All P xs → All Q xs
All-map P Q f [] h = tt
All-map P Q f (x ∷ xs) h = (f x h.0, All-map P Q f xs h.1)

pub find_stream-id :
    (ts : List Stream) (id : ℕ) (t : Stream) → find_stream ts id ≡ some t → t.id ≡ id
find_stream-id [] id t h = cc
find_stream-id (u ∷ ts) id t h = ground (arith, find_stream-id ts id t)

pub find_stream-erase_stream :
    (ts : List Stream) (id other : ℕ)
    → find_stream (erase_stream ts id) other ≡ (if id == other then none else find_stream ts other)
find_stream-erase_stream [] id other = ground arith
find_stream-erase_stream (t ∷ ts) id other = ground (arith, find_stream-erase_stream ts id other)

pub find_stream-replace_stream :
    (ts : List Stream) (u : Stream) (other : ℕ)
    → find_stream (replace_stream ts u) other
      ≡ (if u.id == other && found (find_stream ts other) then some u else find_stream ts other)
find_stream-replace_stream [] u other = ground arith
find_stream-replace_stream (t ∷ ts) u other = ground (arith, find_stream-replace_stream ts u other)

pub erase_stream-absent :
    (ts : List Stream) (id : ℕ) → find_stream ts id ≡ none → erase_stream ts id ≡ ts
erase_stream-absent [] id h = refl
erase_stream-absent (t ∷ ts) id h = ground (arith, erase_stream-absent ts id)

pub erase_stream-IsMap : (ts : List Stream) (id : ℕ) → IsMap ts → IsMap (erase_stream ts id)
erase_stream-IsMap [] id m = tt
erase_stream-IsMap (t ∷ ts) id m =
    if-cases IsMap (t.id == id) (λ _. erase_stream-IsMap ts id m.1)
      (λ _.
        (ground (arith, m.0, find_stream-erase_stream ts id t.id), erase_stream-IsMap ts id m.1))

pub replace_stream-IsMap : (ts : List Stream) (u : Stream) → IsMap ts → IsMap (replace_stream ts u)
replace_stream-IsMap [] u m = tt
replace_stream-IsMap (t ∷ ts) u m =
    if-cases IsMap (t.id == u.id) (λ e. (ground (arith, e, m.0), m.1))
      (λ n. (
        ground (arith, n, m.0, find_stream-replace_stream ts u t.id),
        replace_stream-IsMap ts u m.1,
      ))

pub All-erase_stream {κ} :
    (P : Stream → Type κ) (ts : List Stream) (id : ℕ) → All P ts → All P (erase_stream ts id)
All-erase_stream P [] id h = tt
All-erase_stream P (t ∷ ts) id h =
    if-cases (All P) (t.id == id) (λ _. All-erase_stream P ts id h.1)
      (λ _. (h.0, All-erase_stream P ts id h.1))

pub All-replace_stream {κ} :
    (P : Stream → Type κ) (ts : List Stream) (u : Stream)
    → P u
    → All P ts
    → All P (replace_stream ts u)
All-replace_stream P [] u p h = tt
All-replace_stream P (t ∷ ts) u p h =
    if-cases (All P) (t.id == u.id) (λ _. (p, h.1)) (λ _. (h.0, All-replace_stream P ts u p h.1))

pub All-find_stream {κ} :
    (P : Stream → Type κ) (ts : List Stream) (id : ℕ) (t : Stream)
    → All P ts
    → find_stream ts id ≡ some t
    → P t
All-find_stream P [] id t h e = cc
All-find_stream P (u ∷ ts) id t h e =
    if-cases (λ o. o ≡ some t → P t) (u.id == id) (λ _ d. subst P (cc) h.0)
      (λ _ d. All-find_stream P ts id t h.1 d) e

pub count-erase_stream :
    (p : Stream → Bool) (ts : List Stream) (id : ℕ) (t : Stream)
    → IsMap ts
    → find_stream ts id ≡ some t
    → count p ts ≡ count p (erase_stream ts id) + (if p t then 1 else 0)
count-erase_stream p [] id t m h = cc
count-erase_stream p (u ∷ ts) id t m h = elim (Bool-cases (u.id == id)) [
  | inl e ↦
      let same : some u ≡ some t = rw e at h in
      rw e (rw (erase_stream-absent ts id (ground (arith, e, m.0))) (ground (arith, same)))
  | inr e ↦ rw e (omega (arith, count-erase_stream p ts id t m.1 (rw e at h)))
]

pub count-replace_stream :
    (p : Stream → Bool) (ts : List Stream) (u t : Stream)
    → find_stream ts u.id ≡ some t
    → count p (replace_stream ts u) + (if p t then 1 else 0) ≡ count p ts + (if p u then 1 else 0)
count-replace_stream p [] u t h = cc
count-replace_stream p (v ∷ ts) u t h = elim (Bool-cases (v.id == u.id)) [
  | inl e ↦ let same : some v ≡ some t = rw e at h in rw e (ground (arith, same))
  | inr e ↦ rw e (omega (arith, count-replace_stream p ts u t (rw e at h)))
]
