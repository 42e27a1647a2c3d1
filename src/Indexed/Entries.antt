-- ===== src/Indexed/Entries.antt =====
-- What a PacketNumberIndexedQueue holds, entry by entry, and what Emplace adds.
use puic.Prelude.{
  ℕ, zero, suc, ◌+◌, ◌-◌, ◌≤◌, ◌<◌, ◌≡◌, refl, ap, arith, ◌∙◌, ◌==◌, ltb, leb, ◌||◌, ◌&&◌, Bool,
  true, if◌then◌else◌, if-cases,
}
use puic.Prelude.{List, [], ◌∷◌, ◌++◌, Option, none, some, length, set, replicate}
use puic.Indexed.{IndexedQueue, entry_at, is_present, get_entry, is_empty, last_packet, emplace}

module _ {A : Type 0} where
  abbrev pub present : List (Option A) → ℕ
  present [] = 0
  present (none ∷ es) = present es
  present (some a ∷ es) = suc (present es)

  abbrev pub starts : List (Option A) → Bool
  starts [] = true
  starts (e ∷ es) = is_present e

  -- The count is right, and the first entry is present, if there is one.
  pub record IsValid (q : IndexedQueue A) : Type 0 where
    pub counted : q.number_of_present_entries ≡ present q.entries
    pub front : starts q.entries ≡ true

  present-append : (xs ys : List (Option A)) → present (xs ++ ys) ≡ present xs + present ys
  present-append [] ys = omega arith
  present-append (none ∷ xs) ys = present-append xs ys
  present-append (some a ∷ xs) ys = omega (arith, present-append xs ys)

  present-replicate : (n : ℕ) (xs : List (Option A)) → present (replicate n none ++ xs) ≡ present xs
  present-replicate zero xs = refl
  present-replicate (suc n) xs = present-replicate n xs

  length-replicate :
      (n : ℕ) (xs : List (Option A)) → length (replicate n none ++ xs) ≡ n + length xs
  length-replicate zero xs = omega arith
  length-replicate (suc n) xs = omega (arith, length-replicate n xs)

  entry_at-beyond : (xs : List (Option A)) (i : ℕ) → length xs ≤ i → entry_at xs i ≡ none
  entry_at-beyond [] i h = refl
  entry_at-beyond (x ∷ xs) zero h = absurd (omega arith)
  entry_at-beyond (x ∷ xs) (suc i) h = entry_at-beyond xs i (omega arith)

  -- An entry behind `n` that are not present.
  entry_at-nones :
      (n i : ℕ) (a : A)
      → entry_at (replicate n none ++ (some a ∷ [])) i ≡ (if i == n then some a else none)
  entry_at-nones zero zero a = ground arith
  entry_at-nones zero (suc i) a = ground arith
  entry_at-nones (suc n) zero a = ground arith
  entry_at-nones (suc n) (suc i) a = ground (arith, entry_at-nones n i a)

  none_present : (xs : List (Option A)) → starts xs ≡ true → present xs ≡ 0 → xs ≡ []
  none_present [] s h = refl
  none_present (none ∷ xs) s h = cc
  none_present (some a ∷ xs) s h = absurd (omega (arith, h))

  entry_at-append :
      (xs ys : List (Option A)) (i : ℕ)
      → entry_at (xs ++ ys) i
        ≡ (if ltb i (length xs) then entry_at xs i else entry_at ys (i - length xs))
  entry_at-append [] ys i = let e : i ≡ i - 0 = omega arith in ap (entry_at ys) e ∙ ground arith
  entry_at-append (x ∷ xs) ys zero = ground arith
  entry_at-append (x ∷ xs) ys (suc i) = ground (arith, entry_at-append xs ys i)

  entry_at-replicate :
      (n i : ℕ) → let none_of : List (Option A) = replicate n none in entry_at none_of i ≡ none
  entry_at-replicate zero i = refl
  entry_at-replicate (suc n) zero = refl
  entry_at-replicate (suc n) (suc i) = entry_at-replicate n i

  pub entry_at-set :
      (xs : List (Option A)) (i j : ℕ)
      → entry_at (set xs i none) j ≡ (if j == i then none else entry_at xs j)
  entry_at-set [] i j = ground arith
  entry_at-set (x ∷ xs) zero zero = ground arith
  entry_at-set (x ∷ xs) zero (suc j) = ground arith
  entry_at-set (x ∷ xs) (suc i) zero = ground arith
  entry_at-set (x ∷ xs) (suc i) (suc j) = ground (arith, entry_at-set xs i j)

  pub present-set :
      (xs : List (Option A)) (i : ℕ)
      → is_present (entry_at xs i) ≡ true
      → present (set xs i none) + 1 ≡ present xs
  present-set [] i h = cc
  present-set (none ∷ xs) zero h = cc
  present-set (some a ∷ xs) zero h = omega arith
  present-set (none ∷ xs) (suc i) h = present-set xs i h
  present-set (some a ∷ xs) (suc i) h = omega (arith, present-set xs i h)

  pub entry_at-cons :
      (e : Option A) (es : List (Option A)) (i : ℕ)
      → entry_at (e ∷ es) i ≡ (if i == 0 then e else entry_at es (i - 1))
  entry_at-cons e es zero = ground arith
  entry_at-cons e es (suc i) =
      let f : i ≡ suc i - 1 = omega arith in ap (entry_at es) f ∙ ground arith

  starts-append :
      (xs ys : List (Option A)) → starts xs ≡ true → starts ys ≡ true → starts (xs ++ ys) ≡ true
  starts-append [] ys h k = k
  starts-append (x ∷ xs) ys h k = h

  starts-nonempty :
      (xs ys : List (Option A)) → starts xs ≡ true → 0 < present xs → starts (xs ++ ys) ≡ true
  starts-nonempty [] ys h k = absurd (omega arith)
  starts-nonempty (x ∷ xs) ys h k = h

  present-length : (xs : List (Option A)) → present xs ≤ length xs
  present-length [] = omega arith
  present-length (none ∷ xs) = omega (arith, present-length xs)
  present-length (some a ∷ xs) = omega (arith, present-length xs)

  module _ (q : IndexedQueue A) (v : IsValid q) (n : ℕ) (a : A) where
    pushed : ℕ → List (Option A)
    pushed k = q.entries ++ (replicate k none ++ (some a ∷ []))

    present-pushed : (k : ℕ) → present (pushed k) ≡ present q.entries + 1
    unfolding pushed
    present-pushed k = omega (
      arith,
      present-append q.entries (replicate k none ++ (some a ∷ [])),
      present-replicate k (some a ∷ []),
    )

    entry_at-pushed :
        (k i : ℕ)
        → entry_at (pushed k) i
          ≡ (if i == length q.entries + k then some a else entry_at q.entries i)
    unfolding pushed
    entry_at-pushed k i =
        entry_at-append q.entries (replicate k none ++ (some a ∷ [])) i
        ∙ if-cases
            (λ (r : Option A).
              r ≡ (if i == length q.entries + k then some a else entry_at q.entries i))
            (ltb i (length q.entries)) (λ t. ground (arith, t))
            (λ t.
              entry_at-nones k (i - length q.entries) a
              ∙ ground (arith, t, entry_at-beyond q.entries i (ground (arith, t))))

    pub emplace_lem :
        IsValid (emplace q n a).1
        × ((emplace q n a).0 ≡ (is_empty q || ltb (last_packet q) n))
        × ((x : ℕ)
            → get_entry (emplace q n a).1 x
              ≡ (if (emplace q n a).0 && (x == n) then some a else get_entry q x))
    unfolding emplace get_entry pushed last_packet is_empty
    emplace_lem =
        let P : Bool × IndexedQueue A → Type 0 = λ r.
          IsValid r.1
          × (r.0 ≡ (is_empty q || ltb (last_packet q) n))
          × ((x : ℕ) → get_entry r.1 x ≡ (if r.0 && (x == n) then some a else get_entry q x)) in
        if-cases P (q.number_of_present_entries == 0)
          (λ t.
            let e : q.entries ≡ [] =
              none_present q.entries v.front (ground (arith, t, v.counted)) in
            (
              record {
                counted = omega (arith, present-append q.entries (some a ∷ []), ap present e);
                front = starts-append q.entries (some a ∷ []) v.front refl;
              },
              ground (arith, t),
              λ x. rw e (ground (arith, entry_at-nones 0 (x - n) a)),
            ))
          (λ t.
            if-cases P (leb n (last_packet q)) (λ u. (v, ground (arith, t, u), λ x. ground arith))
              (λ u.
                let k : ℕ = n - q.first_packet - length q.entries in
                (
                  record {
                    counted = omega (arith, v.counted, present-pushed k);
                    front = starts-nonempty q.entries _ v.front (ground (arith, t, v.counted));
                  },
                  ground (arith, t, u),
                  λ x.
                      let p : 0 < q.number_of_present_entries = ground (arith, t) in
                      let l : 0 < length q.entries =
                        omega (arith, present-length q.entries, v.counted, p) in
                      ground (arith, entry_at-pushed k (x - q.first_packet), u, t, l),
                )))
