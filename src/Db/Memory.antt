-- ===== src/Db/Memory.antt =====
-- A table as a list of rows, whose statements never fail: the laws of the interface can be met.
use Prim.Native.Nat.{max}
use schedulx.Prelude.{
  ℕ, suc, ◌-◌, ◌*◌, ◌<◌, refl, List, [], ◌∷◌, ◌++◌, arith, drop, length, select, map_if, All,
}
use schedulx.Effect.{Result, ok, err, record_not_found}
use schedulx.Db.Interface.{Table, numbered, head_of, last_of, at_most, Read}

module _ {Row : Type 0} where
  abbrev pub max_id : (Row → ℕ) → List Row → ℕ
  max_id id_of [] = 0
  max_id id_of (r ∷ l) = max (id_of r) (max_id id_of l)

  pub All-below :
      (id_of : Row → ℕ) (l : List Row) (n : ℕ) → max_id id_of l < n → All (λ q. id_of q < n) l
  All-below id_of [] n h = tt
  All-below id_of (r ∷ l) n h = (omega arith, All-below id_of l n (omega arith))

pub Read-self : {A : Type 0} (r : Result A) → Read r r
Read-self (ok a) = refl
Read-self (err record_not_found) = refl
Read-self (err e) = tt

abbrev pub memory :
    {Row : Type 0} (id_of : Row → ℕ) (set_id : ℕ → Row → Row) → Table Row id_of set_id
memory {Row} id_of set_id = record {
  Store = List Row;
  rows = λ s. s;
  insert = λ r s. let n = suc (max_id id_of s) in (ok n, s ++ set_id n r ∷ []);
  insert_all = λ l s. let n = suc (max_id id_of s) in (ok n, s ++ numbered set_id n l);
  update = λ p f s. (ok (length (select p s)), map_if p f s);
  first = λ p s. (head_of (select p s), s);
  last = λ p s. (last_of (select p s), s);
  find = λ p s. (ok (select p s), s);
  limit = λ p n s. (ok (at_most n (select p s)), s);
  page = λ p n size s.
      (ok (at_most size (drop ((n - 1) * size) (select p s)), length (select p s)), s);
  count = λ p s. (ok (length (select p s)), s);
  insert_law = λ r s. (refl, omega arith, All-below id_of s _ (omega arith));
  insert_all_law = λ l s. refl;
  update_law = λ p f s. (refl, omega arith);
  first_law = λ p s. (Read-self _, refl);
  last_law = λ p s. (Read-self _, refl);
  find_law = λ p s. (refl, refl);
  limit_law = λ p n s. (refl, refl);
  page_law = λ p n size s. (refl, refl);
  count_law = λ p s. (refl, refl);
}
