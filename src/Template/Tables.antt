-- ===== src/Template/Tables.antt =====
-- Transactions over the tables of a world, and the statements of repository/instructionrepo.go and
-- repository/scheduletemplaterepo.go that the template service runs.
use schedulx.Prelude.{ℕ, ◌==◌, ◌&&◌, if◌then◌else◌}
use schedulx.Effect.{
  rows_affected_invalid, Result, ok, err, Outcome, returns, fails, panics, crashes, Exec, pure,
  raise, ◌>>=◌,
}
use schedulx.Types.{Instruction, ScheduleTemplate}
use schedulx.Db
use schedulx.Env.{Env}
use schedulx.World.{World, on_templates, on_instructions}

module _ {e : Env} where
  -- `Rollback`: the tables that a transaction writes are those from before.
  abbrev pub roll_back : World e → World e → World e
  roll_back w w' = record w' {
    site = record w'.site { clusters = w.site.clusters };
    instructions = w.instructions;
    templates = w.templates;
    services = w.services;
  }

  abbrev pub ended : {A : Type 0} → World e → Outcome A × World e → Outcome A × World e
  ended w (returns a, w') = (returns a, w')
  ended w (fails x, w') = (fails x, roll_back w w')
  ended w (panics, w') = (panics, w')
  ended w (crashes, w') = (crashes, roll_back w w')

  -- `Begin`, and the deferred function that rolls back after an error and commits else; that is also
  -- after a panic, where the error is nil.
  unfoldable pub transaction : {A : Type 0} → Exec (World e) A → Exec (World e) A
  transaction m w = ended w (m w)

  -- The end of a function whose deferred function has seen another `err` than its caller sees.
  unfoldable pub settle : {A : Type 0} → Result A → Exec (World e) A
  settle (ok a) = pure a
  settle (err x) = raise x

module _ (e : Env) where
  -- `if rowsAffected != 1 { return config.ErrRowsAffectedInvalid }`
  unfoldable pub single_row : ℕ → Exec (World e) (Unit {0})
  single_row n = if n == 1 then pure tt else raise rows_affected_invalid

  -- `GetSchedTmpl`: rows that are deleted softly are not there.
  unfoldable pub get_sched_tmpl : ℕ → Exec (World e) ScheduleTemplate
  get_sched_tmpl n = on_templates (Db.query_first e.templates (λ r. r.id == n && r.is_deleted == 0))

  -- `GetInstr`; the flag of an instruction is a plain column.
  unfoldable pub get_instr : ℕ → Exec (World e) Instruction
  get_instr n = on_instructions (Db.get e.instructions n)

  -- `Updates` of the template with an id
  unfoldable pub update_tmpl : ℕ → (ScheduleTemplate → ScheduleTemplate) → Exec (World e) ℕ
  update_tmpl n f = on_templates (Db.updates e.templates (λ r. r.id == n && r.is_deleted == 0) f)

  unfoldable pub delete_by_tmpl_expand_id : ℕ → Exec (World e) (Unit {0})
  delete_by_tmpl_expand_id n = do
    k ←
        on_instructions
          (Db.updates e.instructions (λ r. r.tmpl_id == n) (λ r. record r { is_deleted = 1 }))
    if k == 0 then raise rows_affected_invalid else pure tt
