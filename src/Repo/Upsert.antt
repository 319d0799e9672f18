-- ===== src/Repo/Upsert.antt =====
-- `UpInsertInstanceBatch` of repository/instancerepo.go.
use text.Mathlib.Text.{◌==◌ as str_eq}
use schedulx.Prelude.{ℕ, ◌≡◌, ◌==◌, not, any, Bool, List, ◌++◌, map, select}
use schedulx.Effect.{Outcome, returns, fails, panics, crashes}
use schedulx.Types.{Instance, InstanceInfo, status_init}
use schedulx.Db
use schedulx.Db.Interface.{numbered}
use schedulx.Env.{Env}

-- Whether some row of a task has the id of the instance.
abbrev pub known : ℕ → List Instance → InstanceInfo → Bool
known t before i =
    any (λ id. str_eq id i.instance_id)
      (map (λ (r : Instance). r.instance_id) (select (λ r. r.task_id == t) before))

-- The row of an instance that a task meets for the first time, before it has an id of its own.
abbrev pub first_row : ℕ → ℕ → InstanceInfo → Instance
first_row t c i = record {
  id = 0;
  task_id = t;
  instance_id = i.instance_id;
  service_cluster_id = c;
  instance_status = status_init;
  ip_inner = i.ip_inner;
  ip_outer = i.ip_outer;
  msg = "";
}

-- The rows that a task enters for the instances of which it has none.
abbrev pub first_rows : ℕ → ℕ → List InstanceInfo → List Instance → List Instance
first_rows t c l before = map (first_row t c) (select (λ i. not (known t before i)) l)

module _ (e : Env) (t c : ℕ) where
  -- After a return, the rows from before and those of the instances that were missing, with new ids in
  -- order; after an error the rows are as before.
  abbrev pub Entered :
      List InstanceInfo → List Instance → Outcome (Unit {0}) × e.instances.Store → Type 0
  Entered l before (returns u, s) =
      (n : ℕ) × (e.instances.rows s
        ≡ before ++ numbered (λ n r. record r { id = n }) n (first_rows t c l before))
  Entered l before (fails x, s) = e.instances.rows s ≡ before
  Entered l before (panics, s) = ⊥
  Entered l before (crashes, s) = ⊥
