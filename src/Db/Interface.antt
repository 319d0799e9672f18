-- ===== src/Db/Interface.antt =====
-- The interface of a table, in rows by id, and the laws of its statements.
use schedulx.Prelude.{
  ℕ, ◌+◌, ◌*◌, ◌-◌, ◌<◌, ◌≤◌, ◌≡◌, List, [], ◌∷◌, ◌++◌, Bool, take, drop, length, select, map_if,
  All, ◌==◌, if◌then◌else◌,
}
use schedulx.Effect.{record_not_found, Result, ok, err}

module _ {Row : Type 0} where
  -- The rows that an insert of several gives: the ids go up from `n`.
  abbrev pub numbered : (ℕ → Row → Row) → ℕ → List Row → List Row
  numbered set_id n [] = []
  numbered set_id n (r ∷ l) = set_id n r ∷ numbered set_id (n + 1) l

  abbrev pub Inserted : (Row → ℕ) → (ℕ → Row → Row) → List Row → Row → Result ℕ → List Row → Type 0
  Inserted id_of set_id before r (ok n) after =
      (after ≡ before ++ set_id n r ∷ []) × (0 < n) × All (λ q. id_of q < n) before
  Inserted id_of set_id before r (err e) after = after ≡ before

  abbrev pub InsertedAll : (ℕ → Row → Row) → List Row → List Row → Result ℕ → List Row → Type 0
  InsertedAll set_id before l (ok n) after = after ≡ before ++ numbered set_id n l
  InsertedAll set_id before l (err e) after = after ≡ before

  -- MySQL counts the rows that it changed, so a row that already had the values is not counted.
  abbrev pub Updated : List Row → (Row → Bool) → (Row → Row) → Result ℕ → List Row → Type 0
  Updated before p f (ok n) after = (after ≡ map_if p f before) × (n ≤ length (select p before))
  Updated before p f (err e) after = after ≡ before

  abbrev pub head_of : List Row → Result Row
  head_of [] = err record_not_found
  head_of (r ∷ l) = ok r

  abbrev pub last_of : List Row → Result Row
  last_of [] = err record_not_found
  last_of (r ∷ []) = ok r
  last_of (r ∷ q ∷ l) = last_of (q ∷ l)

-- `LIMIT` is written only for a positive number.
abbrev pub at_most : {Row : Type 0} → ℕ → List Row → List Row
at_most n l = if n == 0 then l else take n l

-- A read gives what the rows have, or fails for a reason other than that no row matches.
abbrev pub Read : {A : Type 0} → Result A → Result A → Type 0
Read spec (ok a) = spec ≡ ok a
Read spec (err record_not_found) = spec ≡ err record_not_found
Read spec (err e) = Unit

pub record Table (Row : Type 0) (id_of : Row → ℕ) (set_id : ℕ → Row → Row) : Type 1 where
  pub Store : Type 0
  pub rows : Store → List Row
  pub insert : Row → Store → Result ℕ × Store
  pub insert_all : List Row → Store → Result ℕ × Store
  pub update : (Row → Bool) → (Row → Row) → Store → Result ℕ × Store
  pub first : (Row → Bool) → Store → Result Row × Store
  pub last : (Row → Bool) → Store → Result Row × Store
  pub find : (Row → Bool) → Store → Result (List Row) × Store
  pub limit : (Row → Bool) → ℕ → Store → Result (List Row) × Store
  pub page : (Row → Bool) → ℕ → ℕ → Store → Result (List Row × ℕ) × Store
  pub count : (Row → Bool) → Store → Result ℕ × Store
  pub insert_law :
      (r : Row) (s : Store) → Inserted id_of set_id (rows s) r (insert r s).0 (rows (insert r s).1)
  pub insert_all_law :
      (l : List Row) (s : Store)
      → InsertedAll set_id (rows s) l (insert_all l s).0 (rows (insert_all l s).1)
  pub update_law :
      (p : Row → Bool) (f : Row → Row) (s : Store)
      → Updated (rows s) p f (update p f s).0 (rows (update p f s).1)
  pub first_law :
      (p : Row → Bool) (s : Store)
      → Read (head_of (select p (rows s))) (first p s).0 × (rows (first p s).1 ≡ rows s)
  pub last_law :
      (p : Row → Bool) (s : Store)
      → Read (last_of (select p (rows s))) (last p s).0 × (rows (last p s).1 ≡ rows s)
  pub find_law :
      (p : Row → Bool) (s : Store)
      → Read (ok (select p (rows s))) (find p s).0 × (rows (find p s).1 ≡ rows s)
  pub limit_law :
      (p : Row → Bool) (n : ℕ) (s : Store)
      → Read (ok (at_most n (select p (rows s)))) (limit p n s).0 × (rows (limit p n s).1 ≡ rows s)
  pub page_law :
      (p : Row → Bool) (n size : ℕ) (s : Store)
      → Read
          (ok
            (at_most size (drop ((n - 1) * size) (select p (rows s))), length (select p (rows s))))
          (page p n size s).0
        × (rows (page p n size s).1 ≡ rows s)
  pub count_law :
      (p : Row → Bool) (s : Store)
      → Read (ok (length (select p (rows s)))) (count p s).0 × (rows (count p s).1 ≡ rows s)
