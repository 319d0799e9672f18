-- ===== src/Repo/Related.antt =====
-- The ids of other systems that a task keeps: `UpdateTaskRelationTaskId` and `GetBridgXTaskId` of
-- repository/taskrepo.go.
use std.Path.{subst}
use text.Mathlib.Text.{◌==◌ as str_eq}
use schedulx.Prelude.{
  ℕ, ◌==◌, String, Bool, true, false, if◌then◌else◌, List, [], ◌∷◌, select, map_if, Bool-cases, inl,
  inr, ◌≡◌, refl, ap, ◌∙◌,
}
use schedulx.Effect.{pure, raise, call, ◌>>=◌, Result, ok, err, returns, zoom}
use schedulx.Effect.Ends.{Ended, Ends, Ends-bind, Ends-pure, Ends-raise, Ends-if, Ends-statement}
use schedulx.Types.{Task, RelationTaskId, RelationField, bridgx_field, nodeact_field}
use schedulx.Db
use schedulx.Db.Interface.{Read, Updated, head_of}
use schedulx.Env.{Env}
use schedulx.World.{Site, on_tasks}
use schedulx.Repo.Tasks.{
  update_task_relation_task_id, get_bridgx_task_id, relation_of, set_relation, no_relation, one_row,
  get_task,
}

-- The first of the rows that a test finds, after an update that does not change what the test reads.
head-updated :
    {A : Type 0} (p : A → Bool) (f : A → A) (l : List A) (x : A)
    → ((a : A) → p (f a) ≡ p a)
    → head_of (select p l) ≡ ok x
    → head_of (select p (map_if p f l)) ≡ ok (f x)
head-updated p f [] x k h = cc h
head-updated p f (y ∷ l) x k h = elim (Bool-cases (p y)) [
  | inl t ↦ let same : y ≡ x = cc (rw t at h) in rw (t, k y, t) (ap (λ a. ok (f a)) same)
  | inr n ↦ rw (n, n) (head-updated p f l x k (rw n at h))
]

module _ (e : Env) where
  -- The pair that a column stands for.
  abbrev pub pair_of : String → Result RelationTaskId
  pair_of stored = if str_eq stored "" then ok (no_relation e) else e.relation_json.decode stored

  decoded-Ends :
      (b : Bool) (pair : RelationTaskId) (d : Result RelationTaskId) (s : Site e)
      → Ends ⊥
          (λ q s'. ((if b then ok pair else d) ≡ ok q) × (s' ≡ s))
          ((if b then pure pair else call (λ s. (d, s))) s)
  unfolding pure call
  decoded-Ends true pair d s = record { at = (refl, refl) }
  decoded-Ends false pair (ok q) s = record { at = (refl, refl) }
  decoded-Ends false pair (err x) s = record { at = tt }

  relation_of-Ends :
      (stored : String) (s : Site e)
      → Ends ⊥ (λ pair s'. (pair_of stored ≡ ok pair) × (s' ≡ s)) (relation_of e stored s)
  unfolding relation_of
  relation_of-Ends stored s =
      decoded-Ends (str_eq stored "") (no_relation e) (e.relation_json.decode stored) s

  -- The rows after the update of a task `n`.
  pub record Written (n : ℕ) (field : RelationField) (id : ℕ) (s s' : Site e) : Type 0 where
    pub task : Task
    pub pair : RelationTaskId
    pub found : head_of (select (λ r. r.id == n) (e.tasks.rows s.tasks)) ≡ ok task
    pub read : pair_of task.relation_task_id ≡ ok pair
    pub rows :
        e.tasks.rows s'.tasks
        ≡ map_if
            (λ r. r.id == n)
            (λ r. record r {
              relation_task_id = e.relation_json.encode (set_relation e field id pair);
            })
            (e.tasks.rows s.tasks)

  get_row-Ends :
      (n : ℕ) (s : Site e)
      → Ends ⊥
          (λ task s'.
            (head_of (select (λ r. r.id == n) (e.tasks.rows s.tasks)) ≡ ok task)
            × (e.tasks.rows s'.tasks ≡ e.tasks.rows s.tasks))
          (on_tasks (Db.get e.tasks n) s)
  unfolding Db.get
  get_row-Ends n s = Ends-statement _ _ _ s λ task h. (
    subst (Read (head_of (select (λ r. r.id == n) (e.tasks.rows s.tasks)))) h
        (e.tasks.first_law (λ r. r.id == n) s.tasks).0,
    (e.tasks.first_law (λ r. r.id == n) s.tasks).1,
  )

  write_row-Ends :
      (n : ℕ) (f : Task → Task) (s : Site e)
      → Ends ⊥
          (λ k s'. e.tasks.rows s'.tasks ≡ map_if (λ r. r.id == n) f (e.tasks.rows s.tasks))
          (on_tasks (Db.updates e.tasks (λ r. r.id == n) f) s)
  unfolding Db.updates
  write_row-Ends n f s = Ends-statement _ _ _ s λ k h.
      (subst
        (λ q.
          Updated (e.tasks.rows s.tasks) (λ r. r.id == n) f q
            (e.tasks.rows (e.tasks.update (λ r. r.id == n) f s.tasks).1))
        h (e.tasks.update_law (λ r. r.id == n) f s.tasks)).0

  update-Ends :
      (n : ℕ) (field : RelationField) (id : ℕ) (s : Site e)
      → Ends ⊥ (λ u. Written n field id s) (update_task_relation_task_id e n field id s)
  unfolding update_task_relation_task_id one_row
  update-Ends n field id s = Ends-bind _ _ s (get_row-Ends n s) λ task s1 (found, same).
      Ends-bind _ _ s1 (relation_of-Ends task.relation_task_id s1) λ pair s2 (read, stays).
        Ends-bind _ _ s2 (write_row-Ends n _ s2) λ k s3 rows.
          let written : Written n field id s s3 = record {
            task = task;
            pair = pair;
            found = found;
            read = read;
            rows = rw (rows, stays, same) refl;
          } in
          Ends-if (k == 1) (pure tt) (raise _) s3 (Ends-pure tt s3 written) (Ends-raise _ s3)

  -- What `GetBridgXTaskId` is to give: the new id, or that of before where the other field was written.
  abbrev pub bridgx_after : RelationField → ℕ → RelationTaskId → ℕ
  bridgx_after bridgx_field id pair = id
  bridgx_after nodeact_field id pair = pair.bridgx_task_id

  abbrev pub TaskReads : Type 0
  TaskReads =
      (p : Task → Bool) (s : e.tasks.Store)
      → (e.tasks.first p s).0 ≡ head_of (select p (e.tasks.rows s))

  abbrev pub Related : ℕ → RelationField → ℕ → Site e → Site e → Type 0
  Related n field id s s' =
      (task : Task) × (pair : RelationTaskId) × (head_of
          (select (λ r. r.id == n) (e.tasks.rows s.tasks))
        ≡ ok task)
      × (pair_of task.relation_task_id ≡ ok pair)
      × ((get_bridgx_task_id e n s').0 ≡ returns (bridgx_after field id pair))

  bridgx_task_id-set_relation :
      (field : RelationField) (id : ℕ) (pair : RelationTaskId)
      → (set_relation e field id pair).bridgx_task_id ≡ bridgx_after field id pair
  unfolding set_relation
  bridgx_task_id-set_relation bridgx_field id pair = refl
  bridgx_task_id-set_relation nodeact_field id pair = refl

  get_bridgx_found :
      (n : ℕ) (s : Site e) (task : Task) (pair : RelationTaskId)
      → TaskReads
      → head_of (select (λ r. r.id == n) (e.tasks.rows s.tasks)) ≡ ok task
      → e.relation_json.decode task.relation_task_id ≡ ok pair
      → (get_bridgx_task_id e n s).0 ≡ returns pair.bridgx_task_id
  unfolding get_bridgx_task_id get_task Db.get zoom call pure ◌>>=◌
  get_bridgx_found n s task pair reads h k = rw (reads (λ r. r.id == n) s.tasks, h, k) refl

-- Where JSON gives back what was written and reads do not fail: after an update of the related ids of a
-- task that was found, `GetBridgXTaskId` gives the new id, if it was that of BridgX, or else the one
-- that was stored, which is 0 in an empty column.
pub get_bridgx_task_id-update_task_relation_task_id :
    (e : Env) (n : ℕ) (field : RelationField) (id : ℕ) (s s' : Site e)
    → TaskReads e
    → ((pair : RelationTaskId) → e.relation_json.decode (e.relation_json.encode pair) ≡ ok pair)
    → update_task_relation_task_id e n field id s ≡ (returns tt, s')
    → Related e n field id s s'
get_bridgx_task_id-update_task_relation_task_id e n field id s s' reads json h =
    let w : Written e n field id s s' =
      subst (Ended ⊥ (λ u. Written e n field id s)) h (update-Ends e n field id s).at in
    let f = λ (r : Task). record r {
      relation_task_id = e.relation_json.encode (set_relation e field id w.pair);
    } in
    (
      w.task,
      w.pair,
      w.found,
      w.read,
      get_bridgx_found e n s' (f w.task) (set_relation e field id w.pair) reads
            (rw w.rows
              (head-updated (λ r. r.id == n) f (e.tasks.rows s.tasks) w.task (λ r. refl) w.found))
            (json (set_relation e field id w.pair))
          ∙ ap returns (bridgx_task_id-set_relation e field id w.pair),
    )
