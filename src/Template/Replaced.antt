-- ===== src/Template/Replaced.antt =====
-- `UpdateInstanceTemplate`: the old template is deleted with whatever the creation of the new one commits.
use std.Path.{subst}
use schedulx.Prelude.{map_if, ◌≡◌, refl, ◌⊎◌, inl, inr, none, ◌==◌}
use schedulx.Effect.{
  Result, ok, err, Outcome, returns, fails, panics, crashes, pure, raise, ◌>>=◌, ◌>>◌, continue,
}
use schedulx.Effect.Ends.{Ends, Ends-bind, Ends-mono, Ends-statement, Ends-if, Ends-raise}
use schedulx.Types.{ScheduleTemplate}
use schedulx.Db
use schedulx.Db.Interface.{Updated}
use schedulx.Env.{Env}
use schedulx.World.{World}
use schedulx.Template.Request.{TmplExpandReq, TmplExpandResp, TmplUpdateReq}
use schedulx.Template.Tables.{transaction, ended, settle, update_tmpl}
use schedulx.Template.Create.{instance_body}
use schedulx.Template.Update.{UpdateResp, created, updated, update_instance_template, delete_tmpl}
use schedulx.Template.Opened.{live}
use schedulx.Template.Halfway.{Body, LackingDeploy, instance_body-Ends}

-- The request that the creation is called with.
abbrev pub renewed : TmplUpdateReq → TmplExpandReq
renewed req = record req.parts { end_step = ""; base_env = none; service_env = none; mount = none }

module _ (e : Env) (req : TmplUpdateReq) where
  -- The template of the request is deleted softly, and nothing else has changed.
  pub record Dropped (w w1 : World e) : Type 0 where
    pub templates :
        e.templates.rows w1.templates
        ≡ map_if
            (live e req.tmpl_expand_id)
            (λ r. record r { is_deleted = 1 })
            (e.templates.rows w.templates)
    pub instructions : w1.instructions ≡ w.instructions
    pub site : w1.site ≡ w.site

  drop-Ends :
      {N : Type 0} (w : World e) → Ends N (λ k. Dropped w) (delete_tmpl e req.tmpl_expand_id w)
  unfolding delete_tmpl update_tmpl Db.updates
  drop-Ends w = Ends-if (req.tmpl_expand_id == 0) (raise _) _ w (Ends-raise _ w) (
      Ends-statement _ _ _ w λ k h.
        let f = λ (r : ScheduleTemplate). record r { is_deleted = 1 } in
        let p = live e req.tmpl_expand_id in
        record {
          templates =
              (subst
                (λ q.
                  Updated (e.templates.rows w.templates) p f q
                    (e.templates.rows (e.templates.update p f w.templates).1))
                h (e.templates.update_law p f w.templates)).0;
          instructions = refl;
          site = refl;
        })

  -- What the creation has left, beside the deletion.
  abbrev pub After : World e → Result TmplExpandResp → World e → Type 0
  After w resp w' = (w1 : World e) × Dropped w w1 × Body e (renewed req) w1 resp w'

  body-After :
      (w : World e)
      → Ends
          (LackingDeploy (renewed req))
          (After w)
          ((delete_tmpl e req.tmpl_expand_id >> instance_body e (renewed req)) w)
  body-After w =
      Ends-bind _ _ w (drop-Ends w)
        λ k w1 d. Ends-mono _ (λ resp w2 b. (w1, d, b)) (instance_body-Ends e (renewed req) w1)

  -- What an outcome means for the tables.
  abbrev pub Replaced : World e → Outcome UpdateResp × World e → Type 0
  Replaced w (returns (created resp), w') = After w (ok resp) w'
  Replaced w (returns (updated n), w') = ⊥
  Replaced w (fails x, w') =
      ((w'.templates ≡ w.templates)
        × (w'.instructions ≡ w.instructions)
        × (w'.site.clusters ≡ w.site.clusters))
      ⊎ After w (err x) w'
  Replaced w (panics, w') = LackingDeploy (renewed req)
  Replaced w (crashes, w') = ⊥

  settled :
      (w : World e) (r : Outcome (Result TmplExpandResp) × World e)
      → Ends (LackingDeploy (renewed req)) (After w) r
      → Replaced w
          (let (o, w') = ended w r in continue o (λ resp. settle resp >>= λ x. pure (created x)) w')
  unfolding settle pure raise ◌>>=◌
  settled w (returns (ok resp), w') k = k.at
  settled w (returns (err x), w') k = inr k.at
  settled w (fails x, w') k = inl (refl, refl, refl)
  settled w (panics, w') k = k.at
  settled w (crashes, w') k = k.at

-- An update of a template for instances, for every end it can come to. If it answers, the old template
-- is deleted softly and a new one entered with its five instructions. If it fails, the tables are as
-- before, or an instruction has failed, and then the old template is deleted and the new one stays
-- without a group. If it panics, the request has no template or no
-- deployment; it does not crash.
pub update_instance_template-Replaced :
    (e : Env) (req : TmplUpdateReq) (w : World e)
    → Replaced e req w (update_instance_template e req w)
unfolding update_instance_template transaction ◌>>=◌
update_instance_template-Replaced e req w = settled e req w _ (body-After e req w)
