-- ===== src/Template/Steps.antt =====
-- The rows of new templates and the steps that fill them, of service/templatesvc.go.
use Prim.Native.String.{◌++◌ as join}
use text.Mathlib.Text.{◌==◌ as str_eq}
use schedulx.Prelude.{ℕ, String, ◌==◌, if◌then◌else◌, true, List, [], ◌∷◌, ◌++◌, Option, none, some}
use schedulx.Effect.{Exec, pure, panic, ◌>>=◌, ◌>>◌}
use schedulx.Types.{ScheduleTemplate, ServiceCluster, type_expand, type_shrink, type_deploy}
use schedulx.Db
use schedulx.Env.{Env}
use schedulx.Tool.Numbers.{reverse_int_slice}
use schedulx.World.{World, on_site, on_clusters, on_templates}
use schedulx.Schedule.Run.{not_nil}
use schedulx.Template.Request.{
  TmpInfo, DeployInfo, TmplExpandReq, TmplExpandResp, tmpl_id, ExpandStep, step_tmpl_info,
  step_base_env, step_service_env, step_mount, step_text,
}
use schedulx.Template.Tables.{single_row, update_tmpl}
use schedulx.Template.Instructions.{
  create_bridgx_expand_instr, create_base_env_instr, create_service_env_instr,
  create_mount_slb_instr,
}

-- `"[逆向]" + name`
abbrev pub reverse_name : String → String
reverse_name name = join "[逆向]" name

abbrev pub expand_tmpl : TmpInfo → String → ScheduleTemplate
expand_tmpl args service_name = record {
  id = 0;
  tmpl_name = args.tmpl_name;
  service_name = service_name;
  service_cluster_id = args.service_cluster_id;
  bridgx_clusname = args.bridgx_clusname;
  deploy_mode = args.deploy_mode;
  description = args.describe;
  tmpl_attrs = "";
  instr_group = "";
  schedule_type = type_expand;
  reverse_sched_tmpl_id = 0;
  is_deleted = 0;
}

-- The template of the shrinking, from that of the expansion and its id: it has no mode and no
-- description.
abbrev pub shrink_tmpl : ScheduleTemplate → ℕ → ScheduleTemplate
shrink_tmpl r n = record r {
  tmpl_name = reverse_name r.tmpl_name;
  deploy_mode = "";
  description = "";
  tmpl_attrs = "";
  schedule_type = type_shrink;
  reverse_sched_tmpl_id = n;
}

-- The variables of the loop over the steps: the ids of `tmplInfo` and `revTmplInfo`, which are set
-- together, `instrGroup` and `instrReverseGroup`.
pub record Locals : Type 0 where
  pub tmpls : Option (ℕ × ℕ)
  pub group : List ℕ
  pub rev_group : List ℕ

abbrev pub no_locals : Locals
no_locals = record { tmpls = none; group = []; rev_group = [] }

-- The two calls of `append` after a step.
unfoldable pub append_ids : Locals → ℕ × ℕ → Locals
append_ids v (n, k) = record v {
  group = v.group ++ n ∷ [];
  rev_group = if k == 0 then v.rev_group else v.rev_group ++ k ∷ [];
}

module _ (e : Env) where
  unfoldable pub service_bind_bridgx_cluster : TmplExpandReq → Exec (World e) ServiceCluster
  unfolding not_nil
  service_bind_bridgx_cluster req = do
    info ← not_nil req.tmpl_info
    cluster ← on_site (on_clusters (Db.get e.clusters info.service_cluster_id))
    on_site (
        on_clusters (
          Db.updates_by_id e.clusters info.service_cluster_id
            (λ r. record r { bridgx_cluster = info.bridgx_clusname })))
    pure cluster

  abbrev pub deploy_tmpl : TmpInfo → DeployInfo → String → ScheduleTemplate
  deploy_tmpl args d service_name = record (expand_tmpl args service_name) {
    tmpl_attrs = e.attrs_json.encode (record {
      repo_type = d.repo_type;
      repo_path = d.repo_path;
      repo_user = d.repo_user;
      repo_password = d.repo_password;
    });
    schedule_type = type_deploy;
  }

  unfoldable pub create_instance_deploy_tmpl :
      TmpInfo → Option DeployInfo → String → Exec (World e) ℕ
  create_instance_deploy_tmpl args none service_name = panic
  create_instance_deploy_tmpl args (some d) service_name =
      on_templates (Db.create e.templates (deploy_tmpl args d service_name))

  unfoldable pub create_shrink_tmpl : ScheduleTemplate → ℕ → Exec (World e) ℕ
  create_shrink_tmpl r n = on_templates (Db.create e.templates (shrink_tmpl r n))

  -- Both callers need the reverse.
  unfoldable pub create_expand_tmpl : TmpInfo → String → Exec (World e) (ℕ × ℕ)
  unfolding create_shrink_tmpl
  create_expand_tmpl args service_name = do
    n ← on_templates (Db.create e.templates (expand_tmpl args service_name))
    k ← create_shrink_tmpl (expand_tmpl args service_name) n
    pure (n, k)

  abbrev pub set_group : List ℕ → ℕ → ScheduleTemplate → ScheduleTemplate
  set_group group rev r = record r {
    instr_group = e.ids_json.encode group;
    reverse_sched_tmpl_id = rev;
  }

  unfoldable pub update_tmpl_instr_group : ℕ → List ℕ → ℕ → Exec (World e) (Unit {0})
  unfolding update_tmpl single_row
  update_tmpl_instr_group n group rev = update_tmpl e n (set_group group rev) >>= single_row e

  -- The cases of the `switch` beside that of the template itself.
  unfoldable pub add_step : TmplExpandReq → String → ℕ → ℕ → ExpandStep → Exec (World e) (ℕ × ℕ)
  unfolding not_nil
  add_step req service_name tmpl rev_tmpl step_tmpl_info =
      create_bridgx_expand_instr e tmpl rev_tmpl true
  add_step req service_name tmpl rev_tmpl step_base_env = create_base_env_instr e req.base_env tmpl
  add_step req service_name tmpl rev_tmpl step_service_env = do
    env ← not_nil req.service_env
    create_service_env_instr e (record env { service_name = service_name }) tmpl
  add_step req service_name tmpl rev_tmpl step_mount =
      create_mount_slb_instr e req.mount tmpl rev_tmpl true

  -- The calls of `append` after the case of a step.
  unfoldable pub later_step : TmplExpandReq → String → ExpandStep → Locals → Exec (World e) Locals
  unfolding not_nil add_step append_ids
  later_step req service_name step v = do
    tmpls ← not_nil v.tmpls
    ids ← add_step req service_name tmpls.0 tmpls.1 step
    pure (append_ids v ids)

  -- `for _, step := range expandStep`, with its `break` after the last step that is asked for.
  unfoldable pub for_steps :
      (ExpandStep → Locals → Exec (World e) Locals)
      → String
      → List ExpandStep
      → Locals
      → Exec (World e) Locals
  unfolding step_text
  for_steps f end_step [] v = pure v
  for_steps f end_step (step ∷ steps) v =
      let rest = for_steps f end_step steps in
      (f step v >>= λ v'. if str_eq (step_text step) end_step then pure v' else rest v')

  -- The two groups are written, that of the reverse backwards.
  unfoldable pub write_groups : Locals → Exec (World e) TmplExpandResp
  unfolding not_nil update_tmpl_instr_group
  write_groups v = do
    tmpls ← not_nil v.tmpls
    update_tmpl_instr_group tmpls.1 (reverse_int_slice v.rev_group) tmpls.0
    update_tmpl_instr_group tmpls.0 v.group tmpls.1
    pure (tmpl_id tmpls.0)
