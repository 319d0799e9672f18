-- ===== src/Template/Spec.antt =====
-- What a template for a step is to do, and what undoes it.
use text.Mathlib.Text.{◌==◌ as str_eq}
use schedulx.Prelude.{ℕ, String, ◌==◌, Bool, List, [], ◌∷◌, ◌++◌, if◌then◌else◌, map, select}
use schedulx.Types.{
  Instruction, Action, bridgx_expand, bridgx_shrink, node_act_init_base, node_act_init_svc,
  mount_slb, umount_slb,
}
use schedulx.Template.Request.{
  ExpandStep, step_tmpl_info, step_base_env, step_service_env, step_mount, step_text,
}

-- The steps up to the one that is named, or all.
unfoldable pub steps_until : String → List ExpandStep → List ExpandStep
unfolding step_text
steps_until end_step [] = []
steps_until end_step (s ∷ steps) =
    if str_eq (step_text s) end_step then s ∷ [] else s ∷ steps_until end_step steps

abbrev pub action_of : ExpandStep → Action
action_of step_tmpl_info = bridgx_expand
action_of step_base_env = node_act_init_base
action_of step_service_env = node_act_init_svc
action_of step_mount = mount_slb

-- The action that takes back what an action did, where there is one.
abbrev pub undo : Action → List Action
undo bridgx_expand = bridgx_shrink ∷ []
undo mount_slb = umount_slb ∷ []
undo _ = []

abbrev pub undo_all : List Action → List Action
undo_all [] = []
undo_all (a ∷ l) = undo a ++ undo_all l

-- The instructions of a template, and what their rows have.
abbrev pub of_tmpl : ℕ → Instruction → Bool
of_tmpl n r = r.tmpl_id == n

abbrev pub ids_of : ℕ → List Instruction → List ℕ
ids_of n l = map (λ r. r.id) (select (of_tmpl n) l)

abbrev pub actions_of : ℕ → List Instruction → List Action
actions_of n l = map (λ r. r.instr_action) (select (of_tmpl n) l)
