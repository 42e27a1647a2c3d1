-- ===== src/Indexed/Removal.antt =====
-- What Remove takes out.
use puic.Prelude.{
  ℕ, zero, suc, ◌+◌, ◌-◌, ◌≤◌, ◌<◌, ◌≡◌, refl, sym, ap, arith, ◌∙◌, ◌==◌, ltb, not, ◌&&◌, Bool,
  true, false, if◌then◌else◌, if-cases,
}
use puic.Prelude.{Bool-cases, inl, inr, ltb_false→le, List, [], ◌∷◌, Option, none, some, set}
use puic.Indexed.{IndexedQueue, entry_at, is_present, get_entry, cleanup, remove}
use puic.Indexed.Entries.{IsValid, present, starts, entry_at-set, present-set, entry_at-cons}

module _ {A : Type 0} where
  module _ (q : IndexedQueue A) (v : IsValid q) (n : ℕ) where
    cleanup_lem :
        (es : List (Option A)) (count first : ℕ)
        → count ≡ present es
        → IsValid (cleanup es count first)
          × ((x : ℕ)
              → get_entry (cleanup es count first) x
                ≡ (if ltb x first then none else entry_at es (x - first)))
    unfolding cleanup get_entry
    cleanup_lem [] count first c = (record { counted = c; front = refl }, λ x. ground arith)
    cleanup_lem (none ∷ es) count first c =
        let (w, g) = cleanup_lem es count (first + 1) c in
        (
          w,
          λ x.
              let e : x - first - 1 ≡ x - (first + 1) = omega arith in
              g x ∙ ground (arith, entry_at-cons none es (x - first), ap (entry_at es) e),
        )
    cleanup_lem (some b ∷ es) count first c = (record { counted = c; front = refl }, λ x. refl)

    starts-set : (xs : List (Option A)) (i : ℕ) → 0 < i → starts (set xs i none) ≡ starts xs
    starts-set [] i h = refl
    starts-set (x ∷ xs) zero h = absurd (omega arith)
    starts-set (x ∷ xs) (suc i) h = refl

    absent-none : (o : Option A) → is_present o ≡ false → o ≡ none
    absent-none none h = refl
    absent-none (some b) h = cc

    get_entry-there :
        is_present (get_entry q n) ≡ true
        → (q.first_packet ≤ n) × (is_present (entry_at q.entries (n - q.first_packet)) ≡ true)
    unfolding get_entry
    get_entry-there h = elim (Bool-cases (ltb n q.first_packet)) [
      | inl t ↦ absurd (ground (arith, h, t))
      | inr f ↦ (ltb_false→le _ _ f, ground (arith, h, f))
    ]

    get_entry-set :
        (x : ℕ)
        → q.first_packet ≤ n
        → (if ltb x q.first_packet
            then none
            else entry_at (set q.entries (n - q.first_packet) none) (x - q.first_packet))
          ≡ (if x == n then none else get_entry q x)
    unfolding get_entry
    get_entry-set x h =
        ground (arith, h, entry_at-set q.entries (n - q.first_packet) (x - q.first_packet))

    pub remove_lem :
        IsValid (remove q n).1
        × ((remove q n).0 ≡ is_present (get_entry q n))
        × ((x : ℕ)
            → get_entry (remove q n).1 x
              ≡ (if (remove q n).0 && (x == n) then none else get_entry q x))
    unfolding remove
    remove_lem =
        let i : ℕ = n - q.first_packet in
        let P : Bool × IndexedQueue A → Type 0 = λ r.
          IsValid r.1
          × (r.0 ≡ is_present (get_entry q n))
          × ((x : ℕ) → get_entry r.1 x ≡ (if r.0 && (x == n) then none else get_entry q x)) in
        if-cases P (not (is_present (get_entry q n)))
          (λ t. (v, ground (arith, t), λ x. ground arith))
          (λ t.
            let there : is_present (get_entry q n) ≡ true = ground (arith, t) in
            let (k, here) = get_entry-there there in
            let c : q.number_of_present_entries - 1 ≡ present (set q.entries i none) =
              omega (arith, v.counted, present-set q.entries i here) in
            if-cases P (n == q.first_packet)
              (λ u.
                let (w, g) =
                  cleanup_lem (set q.entries i none) (q.number_of_present_entries - 1)
                    q.first_packet c in
                (w, sym there, λ x. g x ∙ get_entry-set x k))
              (λ u. (
                record {
                  counted = c;
                  front = starts-set q.entries i (ground (arith, u, k)) ∙ v.front;
                },
                sym there,
                λ x. unfold get_entry in get_entry-set x k,
              )))
