-- ===== src/Tool/Reversed.antt =====
-- What the loop of `ReverseIntSlice` computes.
use schedulx.Prelude.{
  ℕ, zero, suc, ◌+◌, ◌-◌, ◌≤◌, ltb, List, [], ◌∷◌, ◌++◌, length, length-append, append_assoc,
  append-nil, reverse, ◌≡◌, refl, sym, ap, ◌∙◌, arith, ◌⊎◌, inl, inr, false, true,
}
use mathlib.Core.List.{reverse-cons, reverse-append}
use schedulx.Tool.Numbers.{item, put, swap, swaps, reverse_int_slice}

item-append : (a : List ℕ) (x : ℕ) (s : List ℕ) (i : ℕ) → i ≡ length a → item (a ++ x ∷ s) i ≡ x
unfolding item
item-append [] x s zero h = refl
item-append [] x s (suc i) h = absurd (omega (arith, h))
item-append (y ∷ a) x s zero h = absurd (omega (arith, h))
item-append (y ∷ a) x s (suc i) h = item-append a x s i (omega (arith, h))

put-append :
    (a : List ℕ) (x : ℕ) (s : List ℕ) (i y : ℕ) → i ≡ length a → put (a ++ x ∷ s) i y ≡ a ++ y ∷ s
unfolding put
put-append [] x s zero y h = refl
put-append [] x s (suc i) y h = absurd (omega (arith, h))
put-append (z ∷ a) x s zero y h = absurd (omega (arith, h))
put-append (z ∷ a) x s (suc i) y h = ap (λ l. z ∷ l) (put-append a x s i y (omega (arith, h)))

-- A list with two places marked.
abbrev between : List ℕ → ℕ → List ℕ → ℕ → List ℕ → List ℕ
between a x m y b = a ++ (x ∷ (m ++ (y ∷ b)))

-- The two ends of a middle part change places.
swap-between :
    (a m b : List ℕ) (x y j : ℕ)
    → j ≡ length a + suc (length m)
    → swap (length a) j (between a x m y b) ≡ between a y m x b
unfolding swap
swap-between a m b x y j h =
    let at_j : (z : ℕ) → j ≡ length (a ++ (z ∷ m)) =
      λ z. omega (arith, h, length-append a (z ∷ m)) in
    let split : (z v : ℕ) → between a z m v b ≡ (a ++ (z ∷ m)) ++ (v ∷ b) =
      λ z v. sym (append_assoc a (z ∷ m) (v ∷ b)) in
    let last : item (between a x m y b) j ≡ y =
      rw (split x y) (item-append (a ++ (x ∷ m)) y b j (at_j x)) in
    let first : item (between a x m y b) (length a) ≡ x =
      item-append a x (m ++ (y ∷ b)) (length a) refl in
    rw (last, first, put-append a x (m ++ (y ∷ b)) (length a) y refl, split y y)
      (put-append (a ++ (y ∷ m)) y b j x (at_j y) ∙ sym (split y x))

abbrev Ending : List ℕ → Type 0
Ending l = (l ≡ []) ⊎ ((m : List ℕ) × (y : ℕ) × (l ≡ m ++ y ∷ []))

ending : (l : List ℕ) → Ending l
ending [] = inl refl
ending (x ∷ l) = elim (ending l) [
  | inl h ↦ inr ([], x, ap (λ k. x ∷ k) h)
  | inr (m, y, h) ↦ inr (x ∷ m, y, ap (λ k. x ∷ k) h)
]

reverse-ends :
    (a m b : List ℕ) (x y : ℕ)
    → a ++ (reverse (x ∷ (m ++ (y ∷ []))) ++ b) ≡ (a ++ (y ∷ [])) ++ (reverse m ++ (x ∷ b))
reverse-ends a m b x y =
    rw
      (
        reverse-cons x (m ++ (y ∷ [])),
        reverse-append m (y ∷ []),
        append_assoc a (y ∷ []) (reverse m ++ (x ∷ b)),
        append_assoc (reverse m) (x ∷ []) b,
      )
      refl

-- One round, and then the rest of them on the part between.
swaps_between :
    (rounds j : ℕ) (a m b : List ℕ) (x y : ℕ)
    → j ≡ length a + suc (length m)
    → swaps rounds (length (a ++ (y ∷ []))) (j - 1) ((a ++ (y ∷ [])) ++ (m ++ (x ∷ b)))
      ≡ (a ++ (y ∷ [])) ++ (reverse m ++ (x ∷ b))
    → swaps (suc rounds) (length a) j (a ++ ((x ∷ (m ++ (y ∷ []))) ++ b))
      ≡ a ++ (reverse (x ∷ (m ++ (y ∷ []))) ++ b)
unfolding swaps
swaps_between rounds j a m b x y k rest =
    let go : ltb (length a) j ≡ true = ground (arith, k) in
    let next : length a + 1 ≡ length (a ++ (y ∷ [])) = omega (arith, length-append a (y ∷ [])) in
    rw
      (
        reverse-ends a m b x y,
        append_assoc m (y ∷ []) b,
        go,
        swap-between a m b x y j k,
        next,
        sym (append_assoc a (y ∷ []) (m ++ (x ∷ b))),
      )
      rest

-- The loop turns the part between its two indices around.
swaps_middle :
    (rounds j : ℕ) (a m b : List ℕ)
    → length m ≤ rounds
    → j ≡ length a + length m - 1
    → swaps rounds (length a) j (a ++ (m ++ b)) ≡ a ++ (reverse m ++ b)
unfolding swaps
swaps_middle zero j a [] b h k = refl
swaps_middle zero j a (x ∷ m) b h k = absurd (omega (arith, h))
swaps_middle (suc rounds) j a [] b h k =
    let stop : ltb (length a) j ≡ false = ground (arith, k) in rw stop refl
swaps_middle (suc rounds) j a (x ∷ l) b h k = elim (ending l) [
  | inl e ↦
      let stop : ltb (length a) j ≡ false = ground (arith, k, ap length e) in rw (stop, e) refl
  | inr (m, y, e) ↦
      let size : length l ≡ length m + 1 = omega (arith, ap length e, length-append m (y ∷ [])) in
      rw e (
        swaps_between rounds j a m b x y (omega (arith, k, size)) (
          swaps_middle rounds (j - 1) (a ++ (y ∷ [])) m (x ∷ b) (omega (arith, h, size))
            (omega (arith, k, size, length-append a (y ∷ [])))))
]

-- `ReverseIntSlice` turns the slice around.
pub reverse_int_slice-reverse : (s : List ℕ) → reverse_int_slice s ≡ reverse s
unfolding reverse_int_slice
reverse_int_slice-reverse s =
    let whole = swaps_middle (length s) (length s - 1) [] s [] (omega arith) (omega arith) in
    ap (swaps (length s) 0 (length s - 1)) (sym (append-nil s)) ∙ whole ∙ append-nil (reverse s)
