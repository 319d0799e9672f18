-- ===== src/Template/Shown.antt =====
-- `InfoAction` after `createInstanceTemplate`: what was stored is shown again.
use schedulx.Template.Steps.{deploy_tmpl}
use schedulx.Template.Paired.{live-below}
use schedulx.Template.Opened.{All-map, All-snoc, live}
use std.Path.{subst}
use text.Mathlib.Text.{◌==◌ as str_eq}
use schedulx.Prelude.{
  ℕ, ◌<◌, ◌≡◌, refl, sym, String, ◌==◌, Bool, true, false, List, [], ◌∷◌, ◌++◌, append_assoc,
  select, All, arith, some, none, length,
}
use schedulx.Effect.{Exec, pure, ◌>>=◌, ok, returns, zoom, call, or_panic}
use schedulx.Types.{ScheduleTemplate, Instruction}
use schedulx.Db
use schedulx.Db.Interface.{head_of}
use schedulx.Env.{Env, Codec}
use schedulx.World.{World}
use schedulx.Template.Request.{
  TmpInfo, DeployInfo, TmplExpandReq, deploy_tmpl_id, TmplInfoResp, DeployStep,
  step_before_download, step_download_exec, step_before_deploy, step_deploy, step_after_deploy,
  deploy_steps,
}
use schedulx.Template.Tables.{get_sched_tmpl, get_instr}
use schedulx.Template.Instructions.{deploy_instr}
use schedulx.Template.Create.{create_instance_template}
use schedulx.Template.Info.{repo_of, with_download, show_instr, show_instrs, info_action}
use schedulx.Template.Added.{select-append}
use schedulx.Template.Deployed.{made, Rising}
use schedulx.Template.Halfway.{Deploying, Settled, create_instance-Settled}

-- JSON gives back what was written, and no structure is written as the empty text.
abbrev pub RoundTrips : {A : Type 0} → Codec A → Type 0
RoundTrips c = (a : _) → (c.decode (c.encode a) ≡ ok a) × (str_eq (c.encode a) "" ≡ false)

-- The parts of a deployment that have a place in the tables.
abbrev pub stored_parts : DeployInfo → DeployInfo
stored_parts d = record d { strategy = ""; in_place = false; max_surge = 0; executable_path = "" }

abbrev pub shown : TmpInfo → DeployInfo → TmplInfoResp
shown info d = record {
  tmpl_info = info;
  base_env = none;
  service_env = none;
  mount = none;
  deploy_info = stored_parts d;
}

select-none : {A : Type 0} (p : A → Bool) (l : List A) → All (λ x. p x ≡ false) l → select p l ≡ []
select-none p [] h = refl
select-none p (x ∷ l) (h, hs) = rw (h, select-none p l hs)

module _ (e : Env) where
  -- A read does not fail for a reason of its own.
  pub record Reads : Type 0 where
    pub tmpl :
        (p : ScheduleTemplate → Bool) (s : e.templates.Store)
        → (e.templates.first p s).0 ≡ head_of (select p (e.templates.rows s))
    pub instr :
        (p : Instruction → Bool) (s : e.instructions.Store)
        → (e.instructions.first p s).0 ≡ head_of (select p (e.instructions.rows s))

  pub record Laws : Type 0 where
    pub attrs : RoundTrips e.attrs_json
    pub ids : RoundTrips e.ids_json
    pub download : RoundTrips e.download_json
    pub deploy : RoundTrips e.deploy_json

  module _ (reads : Reads) (laws : Laws) (d : DeployInfo) (t : ℕ) (name : String) where
    -- What the instruction of a step adds to the answer.
    abbrev show_step : DeployStep → DeployInfo → DeployInfo
    show_step step_before_download r = record r { before_download_cmd = d.before_download_cmd }
    show_step step_download_exec r = record r {
      deploy_file_path = d.deploy_file_path;
      deploy_file_name = d.deploy_file_name;
    }
    show_step step_before_deploy r = record r { before_deploy_cmd = d.before_deploy_cmd }
    show_step step_deploy r = record r {
      deploy_cmd = d.deploy_cmd;
      env_variables = d.env_variables;
    }
    show_step step_after_deploy r = record r { after_deploy_cmd = d.after_deploy_cmd }

    abbrev show_steps : List DeployStep → DeployInfo → DeployInfo
    show_steps [] r = r
    show_steps (step ∷ steps) r = show_steps steps (show_step step r)

    show-step :
        (step : DeployStep) (n : ℕ) (r : TmplInfoResp)
        → let i = record (deploy_instr e step d t) { id = n } in
          show_instr e name i.instr_action i r
          ≡ pure (record r { deploy_info = show_step step r.deploy_info })
    unfolding show_instr deploy_instr with_download
    show-step step_before_download n r = refl
    show-step step_download_exec n r =
        rw
          (laws.download (record {
            deploy_file_path = d.deploy_file_path;
            deploy_file_name = d.deploy_file_name;
          })).0
          refl
    show-step step_before_deploy n r = refl
    show-step step_deploy n r = rw (laws.deploy d.env_variables).0 refl
    show-step step_after_deploy n r = refl

    pick-row :
        (old : List Instruction) (n : ℕ) (i : Instruction) (later : List Instruction)
        → All (λ q. q.id < n) old
        → head_of (select (λ q. q.id == n) (old ++ record i { id = n } ∷ later))
          ≡ ok (record i { id = n })
    pick-row old n i later below =
        let itself : (n == n) ≡ true = ground arith in
        let others : All (λ q. (q.id == n) ≡ false) old =
          All-map (λ q. q.id < n) _ old (λ q c. ground arith) below in
        rw (select-append (λ q. q.id == n) old, select-none _ old others, itself) refl

    Rising-next :
        (old : List Instruction) (i : Instruction) (ns : List ℕ)
        → All (λ m. i.id < m) ns
        → Rising e d t old ns
        → Rising e d t (old ++ i ∷ []) ns
    Rising-next old i [] h k = tt
    Rising-next old i (n ∷ ns) (h, hs) (a, b, c) =
        (All-snoc _ old i a h, b, Rising-next old i ns hs c)

    read_instr :
        {A : Type 0} (f : Instruction → Exec (World e) A) (n : ℕ) (w : World e) (i : Instruction)
        → head_of (select (λ q. q.id == n) (e.instructions.rows w.instructions)) ≡ ok i
        → (get_instr e n >>= f) w
          ≡ f i
              (record w { instructions = (e.instructions.first (λ q. q.id == n) w.instructions).1 })
    unfolding get_instr Db.get zoom call ◌>>=◌
    read_instr f n w i h = rw (reads.instr (λ q. q.id == n) w.instructions, h) refl

    show_next :
        (step : DeployStep) (n : ℕ) (r : TmplInfoResp)
        (f : TmplInfoResp → Exec (World e) TmplInfoResp) (w : World e)
        → let i = record (deploy_instr e step d t) { id = n } in
          (show_instr e name i.instr_action i r >>= f) w
          ≡ f (record r { deploy_info = show_step step r.deploy_info }) w
    unfolding pure ◌>>=◌
    show_next step n r f w = rw (show-step step n r) refl

    show-made :
        (steps : List DeployStep) (ns : List ℕ) (old : List Instruction) (r : TmplInfoResp)
        (w : World e)
        → e.instructions.rows w.instructions ≡ old ++ made e d t steps ns
        → Rising e d t old ns
        → length ns ≡ length steps
        → (show_instrs e name ns r w).0
          ≡ returns (record r { deploy_info = show_steps steps r.deploy_info })
    unfolding show_instrs pure
    show-made [] [] old r w h k l = refl
    show-made (step ∷ steps) [] old r w h k l = absurd (omega (arith, l))
    show-made [] (n ∷ ns) old r w h k l = absurd (omega (arith, l))
    show-made (step ∷ steps) (n ∷ ns) old r w h (a, b, c) l =
        let i = record (deploy_instr e step d t) { id = n } in
        let w' = record w {
          instructions = (e.instructions.first (λ q. q.id == n) w.instructions).1;
        } in
        rw
          (
            read_instr _ n w i (rw h (pick-row old n (deploy_instr e step d t) _ a)),
            show_next step n r (show_instrs e name ns) w',
          )
          (show-made steps ns (old ++ i ∷ []) _ w'
            (rw ((e.instructions.first_law (λ q. q.id == n) w.instructions).1, h, append_assoc)
              refl)
            (Rising-next old i ns b c) (omega (arith, l)))

  module _ (reads : Reads) (laws : Laws) where
    read_tmpl :
        {A : Type 0} (f : ScheduleTemplate → Exec (World e) A) (t : ℕ) (w : World e)
        (x : ScheduleTemplate)
        → head_of (select (live e t) (e.templates.rows w.templates)) ≡ ok x
        → (or_panic (get_sched_tmpl e t) >>= f) w
          ≡ f x (record w { templates = (e.templates.first (live e t) w.templates).1 })
    unfolding or_panic get_sched_tmpl Db.query_first zoom call ◌>>=◌
    read_tmpl f t w x h = rw (reads.tmpl (live e t) w.templates, h) refl

    pick-tmpl :
        (l : List ScheduleTemplate) (x : ScheduleTemplate) (t : ℕ)
        → All (λ q. q.id < t) l
        → head_of (select (live e t) (l ++ record x { id = t; is_deleted = 0 } ∷ []))
          ≡ ok (record x { id = t; is_deleted = 0 })
    pick-tmpl l x t below =
        let itself : (t == t) ≡ true = ground arith in
        let old : All (λ q. live e t q ≡ false) l =
          All-map (λ q. q.id < t) _ l (λ q c. live-below e q t c) below in
        rw (select-append (live e t) l, select-none _ l old, itself) refl

    Deploying-shown :
        {req : TmplExpandReq} {w w' : World e} {t : ℕ} {ns : List ℕ}
        → (p : Deploying e req w t ns (e.ids_json.encode ns) w') → length ns ≡ 5
        → (info_action e t w').0 ≡ returns (shown p.info p.deploy)
    unfolding info_action call ◌>>=◌ repo_of
    Deploying-shown {w = w} {w' = w'} {t = t} {ns = ns} p l =
        let x = record (deploy_tmpl e p.info p.deploy p.cluster.service_name) {
          id = t;
          instr_group = e.ids_json.encode ns;
        } in
        rw
          (
            read_tmpl _ t w' x
                (rw p.templates (pick-tmpl (e.templates.rows w.templates) x t p.above)),
            (laws.ids ns).0,
            (laws.attrs _).0,
            (laws.attrs _).1,
          )
          (show-made reads laws p.deploy t p.cluster.service_name deploy_steps ns
            (e.instructions.rows w.instructions) _ _ p.instructions p.rising l)

-- Where JSON gives back what was written and reads do not fail, a template for instances that was
-- created is shown as it was asked for: what `Info` returns has the request's description of the
-- template, and of its deployment all but the parts that no table has a place for.
pub info_action-create_instance_template :
    (e : Env) (req : TmplExpandReq) (w w' : World e) (t : ℕ) (info : TmpInfo) (d : DeployInfo)
    → Reads e
    → Laws e
    → req.tmpl_info ≡ some info
    → req.deploy_info ≡ some d
    → create_instance_template e req w ≡ (returns (deploy_tmpl_id t), w')
    → (info_action e t w').0 ≡ returns (shown info d)
info_action-create_instance_template e req w w' t info d reads laws hi hd h =
    let (ns, p, l) = subst (Settled e req w) h (create_instance-Settled e req w) in
    let same_info : p.info ≡ info = cc (p.given, hi) in
    let same_deploy : p.deploy ≡ d = cc (p.given_deploy, hd) in
    rw (sym same_info, sym same_deploy) (Deploying-shown e reads laws p l)
