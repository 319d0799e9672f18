-- ===== src/Repo/Expands.antt =====
-- `GetExpandList` of repository/scheduletemplaterepo.go: the templates for expanding, each with what
-- its instructions say of containers and of the balancer.
use Prim.Native.Char.{Char, code}
use text.Mathlib.Text.{◌==◌ as str_eq}
use schedulx.Prelude.{
  ℕ, ◌==◌, ◌&&◌, ◌||◌, not, Bool, true, false, String, if◌then◌else◌, List, [], ◌∷◌, any,
}
use schedulx.Effect.{record_not_found, Exec, pure, raise, call, ◌>>=◌, attempt}
use schedulx.Types.{Action, node_act_init_base, mount_slb}
use schedulx.Types.{ScheduleTemplate, Instruction, type_expand}
use schedulx.Db
use schedulx.Env.{Env}
use schedulx.World.{World, on_instructions, on_templates}
use schedulx.Schedule.Start.{same_type}
use schedulx.Repo.Templates.{or_nothing}
use schedulx.Tool.Text.{decimal}

-- `ExpandTemplateList`
pub record ExpandTemplate : Type 0 where
  pub tmpl_expand_id : ℕ
  pub tmpl_expand_name : String
  pub inst_cluster_name : String
  pub is_container : Bool
  pub register_type : String

unfoldable pub is_bracket : ℕ → Bool
is_bracket c = c == 91 || c == 93

unfoldable pub trim_start : String → String
trim_start String.[] = ""
trim_start (String.◌∷◌ c s) =
    let rest = trim_start s in if is_bracket (code c) then rest else String.◌∷◌ c s

unfoldable pub only_brackets : String → Bool
only_brackets String.[] = true
only_brackets (String.◌∷◌ c s) = is_bracket (code c) && only_brackets s

unfoldable pub trim_end : String → String
trim_end String.[] = ""
trim_end (String.◌∷◌ c s) =
    if is_bracket (code c) && only_brackets s then "" else String.◌∷◌ c (trim_end s)

abbrev pub onto_first : Char → List String → List String
onto_first c [] = String.◌∷◌ c "" ∷ []
onto_first c (s ∷ l) = String.◌∷◌ c s ∷ l

-- `strings.Split` at commas
unfoldable pub split : String → List String
split String.[] = "" ∷ []
split (String.◌∷◌ c s) = let rest = split s in if code c == 44 then "" ∷ rest else onto_first c rest

-- The texts of the ids of a group.
unfoldable pub instr_ids : String → List String
unfolding split trim_start trim_end only_brackets is_bracket
instr_ids group = split (trim_end (trim_start group))

abbrev pub is_init_base : Action → Bool
is_init_base node_act_init_base = true
is_init_base _ = false

abbrev pub is_mount_slb : Action → Bool
is_mount_slb mount_slb = true
is_mount_slb _ = false

-- The balancer that a list shows, of the type in the parameters.
unfoldable pub shown_type : String → String → String
shown_type mount_type before =
    if str_eq mount_type "NGINX" then "NGINX" else if str_eq mount_type "SLB" then "SLB" else before

module _ (e : Env) where
  unfoldable pub show_base : Instruction → Bool → Exec (World e) Bool
  show_base i c =
      if is_init_base i.instr_action && not (str_eq i.params "")
      then (call (λ w. (e.base_env_json.decode i.params, w)) >>= λ b. pure (b.is_container || c))
      else pure c

  unfoldable pub show_mount : Instruction → String → Exec (World e) String
  unfolding shown_type
  show_mount i r =
      if is_mount_slb i.instr_action && not (str_eq i.params "")
      then (call (λ w. (e.mount_json.decode i.params, w)) >>= λ m. pure (shown_type m.mount_type r))
      else pure r

  -- The loop over the instructions of a template.
  unfoldable pub show_instrs : List Instruction → Bool → String → Exec (World e) (Bool × String)
  unfolding show_base show_mount
  show_instrs [] c r = pure (c, r)
  show_instrs (i ∷ l) c r = do c1 ← show_base i c; r1 ← show_mount i r; show_instrs l c1 r1

  -- `id IN (…)` with the ids as texts, which a group written as JSON has in decimal.
  unfoldable pub in_group : ScheduleTemplate → Instruction → Bool
  unfolding instr_ids decimal
  in_group t i = any (λ s. str_eq s (decimal i.id)) (instr_ids t.instr_group)

  unfoldable pub expand_template : ScheduleTemplate → Exec (World e) ExpandTemplate
  unfolding show_instrs
  expand_template t = do
    instrs ← on_instructions (Db.query_all e.instructions (in_group t))
    (is_container, register_type) ← show_instrs instrs false ""
    pure (record {
      tmpl_expand_id = t.id;
      tmpl_expand_name = t.tmpl_name;
      inst_cluster_name = t.bridgx_clusname;
      is_container = is_container;
      register_type = register_type;
    })

  unfoldable pub expand_templates : List ScheduleTemplate → Exec (World e) (List ExpandTemplate)
  unfolding expand_template
  expand_templates [] = pure []
  expand_templates (t ∷ l) = do x ← expand_template t; xs ← expand_templates l; pure (x ∷ xs)

  abbrev pub expands : String → ℕ → ScheduleTemplate → Bool
  expands service_name cluster_id r =
      str_eq r.service_name service_name
      && r.service_cluster_id == cluster_id
      && same_type r.schedule_type type_expand
      && r.is_deleted == 0

  -- The error of the first query is dropped, and its count is 0 then.
  unfoldable pub get_expand_list : String → ℕ → ℕ → ℕ → Exec (World e) (List ExpandTemplate × ℕ)
  unfolding expand_templates
  get_expand_list service_name page page_size cluster_id = do
    found ←
        attempt
          (on_templates (Db.query e.templates (expands service_name cluster_id) page page_size))
    let (rows, count) = or_nothing found
    if count == 0
        then raise record_not_found
        else (expand_templates rows >>= λ list. pure (list, count))
