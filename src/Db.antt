-- ===== src/Db.antt =====
-- repository/model/db/base.go over gorm. A table of the database is an interface: what gorm and MySQL
-- do is documented behaviour, and its laws are the fields below. A statement may fail, and then it
-- has changed nothing. Reads and writes go to one database.
pub mod Interface
pub mod Memory
use schedulx.Prelude.{ℕ, List, Bool, ◌==◌}
use schedulx.Effect.{Exec, call}
use schedulx.Db.Interface.{Table}

module _ {Row : Type 0} {id_of : Row → ℕ} {set_id : ℕ → Row → Row}
    (t : Table Row id_of set_id) where
  -- `Create`: the id that the database gives is the result.
  unfoldable pub create : Row → Exec t.Store ℕ
  create r = call (t.insert r)

  -- `Updates`: the number of rows affected is the result.
  unfoldable pub updates : (Row → Bool) → (Row → Row) → Exec t.Store ℕ
  updates p f = call (t.update p f)

  -- `UpdatesByIds`, at one id
  unfoldable pub updates_by_id : ℕ → (Row → Row) → Exec t.Store ℕ
  updates_by_id n f = call (t.update (λ r. id_of r == n) f)

  -- `Get`
  unfoldable pub get : ℕ → Exec t.Store Row
  get n = call (t.first (λ r. id_of r == n))

  -- `QueryFirst`
  unfoldable pub query_first : (Row → Bool) → Exec t.Store Row
  query_first p = call (t.first p)

  -- `QueryLast`
  unfoldable pub query_last : (Row → Bool) → Exec t.Store Row
  query_last p = call (t.last p)

  -- `QueryAll`, by id
  unfoldable pub query_all : (Row → Bool) → Exec t.Store (List Row)
  query_all p = call (t.find p)

  -- `QueryLimit`, by id
  unfoldable pub query_limit : (Row → Bool) → ℕ → Exec t.Store (List Row)
  query_limit p n = call (t.limit p n)

  -- `Query` with the count: a page, by id, and the number of all the rows that match.
  unfoldable pub query : (Row → Bool) → ℕ → ℕ → Exec t.Store (List Row × ℕ)
  query p page page_size = call (t.page p page page_size)

  -- `BatchCreate`
  unfoldable pub batch_create : List Row → Exec t.Store ℕ
  batch_create l = call (t.insert_all l)

  -- `Where(…).Count`
  unfoldable pub count : (Row → Bool) → Exec t.Store ℕ
  count p = call (t.count p)
