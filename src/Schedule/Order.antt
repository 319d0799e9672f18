-- ===== src/Schedule/Order.antt =====
-- The records of the instructions under the loop of service/schedulesvc.go.
use schedulx.Prelude.{
  ℕ, suc, ◌≤◌, ◌≡◌, refl, sym, ap, ◌∙◌, List, [], ◌∷◌, ◌++◌, map, map-append, append_assoc,
  append-nil, take, length, inl, inr, arith,
}
use mathlib.Core.Path.{ap₂}
use std.Path.{subst}
use schedulx.Effect.{
  Result, ok, err, Outcome, returns, fails, panics, crashes, call, outcome, zoom, ◌>>=◌, continue,
}
use schedulx.Effect.Keeps.{Keeps-pure}
use schedulx.Effect.Gives.{Returned}
use schedulx.Types.{InstrRecord, Action}
use schedulx.Db
use schedulx.Db.Interface.{Inserted}
use schedulx.Env.{Env}
use schedulx.World.{World, on_instr_records}
use schedulx.Instr.{InstrReq}
use schedulx.Instr.Exec.{exec_act, create_instr_record}
use schedulx.Schedule.Run.{do_instr, run_group}
use schedulx.Schedule.SameTask.{TaskOf, do_instr-TaskOf}
use schedulx.Schedule.Keys.{
  key, keys, Logs, Perhaps, on_site-Keyed, on_instructions-Keyed, close_record-Keyed, carry-Keyed,
  bind-Logs, then-Logs, on_exit-Logs,
}

module _ (e : Env) (ks : List (ℕ × ℕ)) (t k : ℕ) where
  Inserted-Logs :
      (r : Result ℕ) (w w' : World e) (row : InstrRecord)
      → Inserted
          (λ r. r.id)
          (λ n r. record r { id = n })
          (e.instr_records.rows w.instr_records)
          row
          r
          (e.instr_records.rows w'.instr_records)
      → key row ≡ (t, k)
      → keys e w ≡ ks
      → Logs e ks (t, k) (outcome r, w')
  Inserted-Logs (ok n) w w' row u c h =
      ap (map key) u.0 ∙ map-append key _ _ ∙ ap₂ ◌++◌ h (ap (λ x. x ∷ []) c)
  Inserted-Logs (err x) w w' row u c h = inl (ap (map key) u ∙ h)

  insert-Logs :
      (row : InstrRecord) (w : World e)
      → key row ≡ (t, k)
      → keys e w ≡ ks
      → Logs e ks (t, k) (on_instr_records (Db.create e.instr_records row) w)
  unfolding Db.create call zoom
  insert-Logs row w c h =
      let (r, s) = e.instr_records.insert row w.instr_records in
      Inserted-Logs r w (record w { instr_records = s }) row
        (e.instr_records.insert_law row w.instr_records) c h

  create-Logs : (w : World e) → keys e w ≡ ks → Logs e ks (t, k) (create_instr_record e t k w)
  unfolding create_instr_record
  create-Logs w h = bind-Logs e ks (t, k) _ _ w (λ _ l. Keeps-pure tt) (insert-Logs _ w refl h)

module _ (e : Env) (ks : List (ℕ × ℕ)) where
  exec_act-Logs :
      (req : InstrReq) (act : Action) (w : World e)
      → keys e w ≡ ks
      → Logs e ks (req.schedule_task_id, req.instr_id) (exec_act e req act w)
  unfolding exec_act
  exec_act-Logs req act w h =
      on_exit-Logs e ks _ _ _ w (λ q l. close_record-Keyed e l req q)
        (bind-Logs e ks _ _ _ w (λ _ l. on_site-Keyed e l _)
          (create-Logs e ks req.schedule_task_id req.instr_id w h))

  do_instr-Logs :
      (req : InstrReq) (w : World e)
      → keys e w ≡ ks
      → Logs e ks (req.schedule_task_id, req.instr_id) (do_instr e req w)
  unfolding do_instr
  do_instr-Logs req w h =
      then-Logs e ks _ _ _ w (on_instructions-Keyed e ks _)
        (λ i w' h'.
          bind-Logs e ks _ _ _ w' (λ a l. carry-Keyed e l i.instr_action a)
            (exec_act-Logs _ i.instr_action w' h'))
        h

-- The records after the loop: those before, and then the first `k` instructions in their order; all
-- of them when the loop has returned.
abbrev pub Logged : (e : Env) → ℕ → List ℕ → List (ℕ × ℕ) → Outcome (Unit {0}) × World e → Type 0
Logged e n ids ks (o, w) =
    (k : ℕ) × (keys e w ≡ ks ++ map (λ id. (n, id)) (take k ids))
    × (k ≤ length ids)
    × Returned (λ _. k ≡ length ids) o

module _ (e : Env) (n id : ℕ) (ids : List ℕ) (ks : List (ℕ × ℕ)) where
  stopped-Logged :
      (o : Outcome (Unit {0})) (w : World e)
      → Returned (λ _. ⊥) o
      → Perhaps e ks (n, id) w
      → Logged e n (id ∷ ids) ks (o, w)
  stopped-Logged (returns a) w c h = elim c [ ]
  stopped-Logged (fails x) w c (inl h) = (0, h ∙ sym (append-nil ks), omega arith, tt)
  stopped-Logged (fails x) w c (inr h) = (1, h, omega arith, tt)
  stopped-Logged panics w c (inl h) = (0, h ∙ sym (append-nil ks), omega arith, tt)
  stopped-Logged panics w c (inr h) = (1, h, omega arith, tt)
  stopped-Logged crashes w c (inl h) = (0, h ∙ sym (append-nil ks), omega arith, tt)
  stopped-Logged crashes w c (inr h) = (1, h, omega arith, tt)

  next-Logged :
      (r : Outcome (Unit {0}) × World e)
      → Logged e n ids (ks ++ (n, id) ∷ []) r
      → Logged e n (id ∷ ids) ks r
  next-Logged (returns a, w) (k, h, b, c) = (suc k, h ∙ append_assoc ks _ _, omega arith, ap suc c)
  next-Logged (fails x, w) (k, h, b, c) = (suc k, h ∙ append_assoc ks _ _, omega arith, tt)
  next-Logged (panics, w) (k, h, b, c) = (suc k, h ∙ append_assoc ks _ _, omega arith, tt)
  next-Logged (crashes, w) (k, h, b, c) = (suc k, h ∙ append_assoc ks _ _, omega arith, tt)

  loop-Logged :
      (o : Outcome InstrReq) (w : World e)
      → Logs e ks (n, id) (o, w)
      → Returned (TaskOf n) o
      → ((req : InstrReq) (w : World e) (l : List (ℕ × ℕ))
          → TaskOf n req
          → keys e w ≡ l
          → Logged e n ids l (run_group e ids req w))
      → Logged e n (id ∷ ids) ks (continue o (run_group e ids) w)
  loop-Logged (returns req) w h c ih = next-Logged (run_group e ids req w) (ih req w _ c h)
  loop-Logged (fails x) w h c ih = stopped-Logged (fails x) w tt h
  loop-Logged panics w h c ih = stopped-Logged panics w tt h
  loop-Logged crashes w h c ih = stopped-Logged crashes w tt h

run_group-Logged :
    (e : Env) (n : ℕ) (ids : List ℕ) (req : InstrReq) (w : World e) (ks : List (ℕ × ℕ))
    → TaskOf n req
    → keys e w ≡ ks
    → Logged e n ids ks (run_group e ids req w)
unfolding run_group ◌>>=◌
run_group-Logged e n [] req w ks c h = (0, h ∙ sym (append-nil ks), omega arith, refl)
run_group-Logged e n (id ∷ ids) req w ks c h =
    let req' = record req { instr_id = id } in
    let (o, w') = do_instr e req' w in
    loop-Logged e n id ids ks o w'
      (subst (λ t. Logs e ks (t, id) (do_instr e req' w)) c (do_instr-Logs e ks req' w h))
      ((do_instr-TaskOf e n req' c).at w) (run_group-Logged e n ids)

-- The loop opens one record for each instruction, in the order of the group and never two at a time:
-- the records after it are those before it followed by those of the first `k` instructions, and of
-- all of them if the loop returns.
pub run_group-order :
    (e : Env) (ids : List ℕ) (req : InstrReq) (w : World e)
    → Logged e req.schedule_task_id ids (keys e w) (run_group e ids req w)
run_group-order e ids req w = run_group-Logged e req.schedule_task_id ids req w _ refl refl
