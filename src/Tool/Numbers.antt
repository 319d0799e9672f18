-- ===== src/Tool/Numbers.antt =====
-- `ReverseIntSlice` of pkg/tool/int.go.
use schedulx.Prelude.{ℕ, zero, suc, ◌+◌, ◌-◌, ltb, if◌then◌else◌, List, [], ◌∷◌, length}

-- `s[i]`; the loop stays inside the slice.
unfoldable pub item : List ℕ → ℕ → ℕ
item [] i = 0
item (x ∷ s) zero = x
item (x ∷ s) (suc i) = item s i

-- `s[i] = y`
unfoldable pub put : List ℕ → ℕ → ℕ → List ℕ
put [] i y = []
put (x ∷ s) zero y = y ∷ s
put (x ∷ s) (suc i) y = x ∷ put s i y

unfoldable pub swap : ℕ → ℕ → List ℕ → List ℕ
unfolding item put
swap i j s = put (put s i (item s j)) j (item s i)

-- The loop of `ReverseIntSlice`, in so many rounds at most.
unfoldable pub swaps : ℕ → ℕ → ℕ → List ℕ → List ℕ
unfolding swap
swaps zero i j s = s
swaps (suc rounds) i j s =
    let rest = swaps rounds (i + 1) (j - 1) in if ltb i j then rest (swap i j s) else s

-- In an empty slice the last index is -1 and here 0: the loop has no round in either case.
unfoldable pub reverse_int_slice : List ℕ → List ℕ
unfolding swaps
reverse_int_slice s = swaps (length s) 0 (length s - 1) s
