-- ===== src/Repo/Listed.antt =====
-- `GetExpandList` of repository/scheduletemplaterepo.go: what the list says of each template.
use schedulx.Tool.Text.{decimal}
use schedulx.Schedule.Start.{same_type}
use std.Path.{subst}
use text.Mathlib.Text.{◌==◌ as str_eq}
use schedulx.Prelude.{
  ℕ, ◌-◌, ◌*◌, ◌==◌, ◌&&◌, ◌||◌, not, Bool, true, false, String, if◌then◌else◌, List, [], ◌∷◌, map,
  select, length, drop, any, arith, ◌≡◌, refl, ◌∙◌, ap, sym, select-ext,
}
use schedulx.Effect.{Result, ok, err, pure, raise, call, ◌>>=◌, record_not_found}
use schedulx.Effect.Ends.{
  Ends, Ends-bind, Ends-mono, Ends-pure, Ends-raise, Ends-statement, Ends-attempt, Found,
}
use schedulx.Types.{
  ScheduleTemplate, Instruction, Action, bridgx_expand, bridgx_shrink, node_act_init_base,
  node_act_init_svc, mount_slb, umount_slb, mount_nginx, umount_nginx, node_act_before_download,
  node_act_download, node_act_before_deploy, node_act_deploy, node_act_after_deploy, other_action,
  ScheduleType, type_expand, type_shrink, type_deploy,
}
use schedulx.Db
use schedulx.Db.Interface.{Read, at_most}
use schedulx.Env.{Env, BaseEnv, ParamsMount}
use schedulx.World.{World, on_templates, on_instructions}
use schedulx.Repo.Templates.{or_nothing}
use schedulx.Repo.Expands.{
  ExpandTemplate, is_init_base, is_mount_slb, shown_type, show_base, show_mount, show_instrs,
  in_group, expand_template, expand_templates, expands, get_expand_list, instr_ids,
}

-- The later of two texts, where it is not empty.
abbrev pub or_before : String → String → String
or_before s before = if str_eq s "" then before else s

-- What readable parameters say of containers.
abbrev pub said : Bool → Result BaseEnv → Bool
said true (ok b) = b.is_container
said true (err x) = false
said false r = false

-- Only the instruction of the base environment says it.
abbrev pub said_by : Action → Bool → Result BaseEnv → Bool
said_by node_act_init_base b r = said b r
said_by _ b r = false

-- The balancer in readable parameters, if it is one of the two that a list shows.
abbrev pub type_of : Bool → Result ParamsMount → String
type_of true (ok m) =
    if str_eq m.mount_type "NGINX" then "NGINX" else if str_eq m.mount_type "SLB" then "SLB" else ""
type_of true (err x) = ""
type_of false r = ""

-- Only the instruction that mounts behind SLB names it.
abbrev pub type_of_by : Action → Bool → Result ParamsMount → String
type_of_by mount_slb b r = type_of b r
type_of_by _ b r = ""

said-is_init_base :
    (a : Action) (b : Bool) (r : Result BaseEnv) → said (is_init_base a && b) r ≡ said_by a b r
said-is_init_base bridgx_expand b r = refl
said-is_init_base bridgx_shrink b r = refl
said-is_init_base node_act_init_base b r = refl
said-is_init_base node_act_init_svc b r = refl
said-is_init_base mount_slb b r = refl
said-is_init_base umount_slb b r = refl
said-is_init_base mount_nginx b r = refl
said-is_init_base umount_nginx b r = refl
said-is_init_base node_act_before_download b r = refl
said-is_init_base node_act_download b r = refl
said-is_init_base node_act_before_deploy b r = refl
said-is_init_base node_act_deploy b r = refl
said-is_init_base node_act_after_deploy b r = refl
said-is_init_base (other_action s) b r = refl

type_of-is_mount_slb :
    (a : Action) (b : Bool) (r : Result ParamsMount)
    → type_of (is_mount_slb a && b) r ≡ type_of_by a b r
type_of-is_mount_slb bridgx_expand b r = refl
type_of-is_mount_slb bridgx_shrink b r = refl
type_of-is_mount_slb node_act_init_base b r = refl
type_of-is_mount_slb node_act_init_svc b r = refl
type_of-is_mount_slb mount_slb b r = refl
type_of-is_mount_slb umount_slb b r = refl
type_of-is_mount_slb mount_nginx b r = refl
type_of-is_mount_slb umount_nginx b r = refl
type_of-is_mount_slb node_act_before_download b r = refl
type_of-is_mount_slb node_act_download b r = refl
type_of-is_mount_slb node_act_before_deploy b r = refl
type_of-is_mount_slb node_act_deploy b r = refl
type_of-is_mount_slb node_act_after_deploy b r = refl
type_of-is_mount_slb (other_action s) b r = refl

-- The type of a template for expanding.
abbrev pub is_expansion : ScheduleType → Bool
is_expansion type_expand = true
is_expansion type_shrink = false
is_expansion type_deploy = false

same_type-is_expansion : (x : ScheduleType) → same_type x type_expand ≡ is_expansion x
same_type-is_expansion type_expand = refl
same_type-is_expansion type_shrink = refl
same_type-is_expansion type_deploy = refl

shown_type-or_before :
    (m before : String) → shown_type m before ≡ or_before (shown_type m "") before
unfolding shown_type
shown_type-or_before m before = chosen (str_eq m "NGINX") (str_eq m "SLB")
  where
    chosen :
        (n s : Bool)
        → (if n then "NGINX" else if s then "SLB" else before)
          ≡ or_before (if n then "NGINX" else if s then "SLB" else "") before
    chosen true s = refl
    chosen false true = refl
    chosen false false = refl

or_swap : (a b c : Bool) → b || (a || c) ≡ (a || b) || c
or_swap a b c = ground arith

or_false : (a : Bool) → a || false ≡ a
or_false a = ground arith

given : {A : Type 0} (a b : A) → ok a ≡ ok b → a ≡ b
given a b h = cc h

module _ (e : Env) where
  -- Whether an instruction prepares containers.
  abbrev pub prepares : Instruction → Bool
  prepares i = said_by i.instr_action (not (str_eq i.params "")) (e.base_env_json.decode i.params)

  -- The balancer that an instruction names, if it is one that is shown.
  abbrev pub names_type : Instruction → String
  names_type i = type_of_by i.instr_action (not (str_eq i.params "")) (e.mount_json.decode i.params)

  -- The last that is named.
  abbrev pub last_type : List Instruction → String → String
  last_type [] before = before
  last_type (i ∷ l) before = last_type l (or_before (names_type i) before)

  abbrev pub told : ScheduleTemplate → Bool → String → ExpandTemplate
  told t c r = record {
    tmpl_expand_id = t.id;
    tmpl_expand_name = t.tmpl_name;
    inst_cluster_name = t.bridgx_clusname;
    is_container = c;
    register_type = r;
  }

  abbrev pub shown : List Instruction → ScheduleTemplate → ExpandTemplate
  shown l t = told t (any prepares l) (last_type l "")

  -- Whether the id of an instruction is among those of the template's group.
  abbrev pub grouped : ScheduleTemplate → Instruction → Bool
  grouped t i = any (λ s. str_eq s (decimal i.id)) (instr_ids t.instr_group)

  -- The entry of a template, by the instructions of its group.
  abbrev pub entry : List Instruction → ScheduleTemplate → ExpandTemplate
  entry instrs t = shown (select (grouped t) instrs) t

  said-Ends :
      (t : Bool) (r : Result BaseEnv) (c : Bool) (w : World e)
      → Ends ⊥
          (λ c1 w1. (c1 ≡ said t r || c) × (w1 ≡ w))
          ((if t then (call (λ w. (r, w)) >>= λ b. pure (b.is_container || c)) else pure c) w)
  unfolding call pure ◌>>=◌
  said-Ends true (ok b) c w = record { at = (refl, refl) }
  said-Ends true (err x) c w = record { at = tt }
  said-Ends false r c w = record { at = (refl, refl) }

  type-Ends :
      (t : Bool) (q : Result ParamsMount) (r : String) (w : World e)
      → Ends ⊥
          (λ r1 w1. (r1 ≡ or_before (type_of t q) r) × (w1 ≡ w))
          ((if t then (call (λ w. (q, w)) >>= λ m. pure (shown_type m.mount_type r)) else pure r) w)
  unfolding call pure ◌>>=◌ shown_type
  type-Ends true (ok m) r w = record { at = (shown_type-or_before m.mount_type r, refl) }
  type-Ends true (err x) r w = record { at = tt }
  type-Ends false q r w = record { at = (refl, refl) }

  instrs-Ends :
      (l : List Instruction) (c : Bool) (r : String) (w : World e)
      → Ends ⊥
          (λ a w1. (a.0 ≡ any prepares l || c) × (a.1 ≡ last_type l r) × (w1 ≡ w))
          (show_instrs e l c r w)
  unfolding show_instrs show_base show_mount
  instrs-Ends [] c r w = Ends-pure _ w (refl, refl, refl)
  instrs-Ends (i ∷ l) c r w =
      Ends-bind _ _ w (said-Ends _ (e.base_env_json.decode i.params) c w) λ c1 w1 (hc, hw).
        Ends-bind _ _ w1 (type-Ends _ (e.mount_json.decode i.params) r w1) λ r1 w2 (hr, hv).
          Ends-mono _
            (λ a w3 (ha, hb, hd). (
              ha
                  ∙ ap (λ c. any prepares l || c)
                      (hc ∙ ap (λ b. b || c) (said-is_init_base i.instr_action _ _))
                  ∙ or_swap (prepares i) (any prepares l) c,
              hb
                  ∙ ap (last_type l)
                      (hr ∙ ap (λ s. or_before s r) (type_of-is_mount_slb i.instr_action _ _)),
              hd ∙ hv ∙ hw,
            ))
            (instrs-Ends l c1 r1 w2)

  instructions-Ends :
      (p : Instruction → Bool) (w : World e)
      → Ends ⊥
          (λ l w1.
            (ok (select p (e.instructions.rows w.instructions)) ≡ ok l)
            × (e.instructions.rows w1.instructions ≡ e.instructions.rows w.instructions))
          (on_instructions (Db.query_all e.instructions p) w)
  unfolding Db.query_all
  instructions-Ends p w = Ends-statement _ _ _ w λ l h. (
    subst (Read (ok (select p (e.instructions.rows w.instructions)))) h
        (e.instructions.find_law p w.instructions).0,
    (e.instructions.find_law p w.instructions).1,
  )

  template-Ends :
      (t : ScheduleTemplate) (w : World e)
      → Ends ⊥
          (λ x w1.
            (x ≡ entry (e.instructions.rows w.instructions) t)
            × (e.instructions.rows w1.instructions ≡ e.instructions.rows w.instructions))
          (expand_template e t w)
  unfolding expand_template in_group
  template-Ends t w = Ends-bind _ _ w (instructions-Ends (grouped t) w) λ l w1 (hl, hi).
      Ends-bind _ _ w1 (instrs-Ends l false "" w1) λ (c, r) w2 (hc, hr, hw). Ends-pure _ w2 (
        ap (λ c. told t c r) (hc ∙ or_false (any prepares l))
            ∙ ap (told t (any prepares l)) hr
            ∙ ap (λ l. shown l t) (sym (given _ l hl)),
        ap (λ w. e.instructions.rows w.instructions) hw ∙ hi,
      )

  templates-Ends :
      (l : List ScheduleTemplate) (w : World e)
      → Ends ⊥
          (λ xs w1.
            (xs ≡ map (entry (e.instructions.rows w.instructions)) l)
            × (e.instructions.rows w1.instructions ≡ e.instructions.rows w.instructions))
          (expand_templates e l w)
  unfolding expand_templates
  templates-Ends [] w = Ends-pure [] w (refl, refl)
  templates-Ends (t ∷ l) w = Ends-bind _ _ w (template-Ends t w) λ x w1 (hx, h1).
      Ends-bind _ _ w1 (templates-Ends l w1)
        λ xs w2 (hxs, h2). Ends-pure (x ∷ xs) w2 (rw (hx, hxs, h1), h2 ∙ h1)

  -- The templates of a cluster for expanding, not deleted.
  abbrev pub expanding : World e → String → ℕ → List ScheduleTemplate
  expanding w service_name cluster_id =
      select
        (λ r.
          str_eq r.service_name service_name
          && r.service_cluster_id == cluster_id
          && is_expansion r.schedule_type
          && r.is_deleted == 0)
        (e.templates.rows w.templates)

  select-expands :
      (service_name : String) (cluster_id : ℕ) (w : World e)
      → select (expands e service_name cluster_id) (e.templates.rows w.templates)
        ≡ expanding w service_name cluster_id
  select-expands service_name cluster_id w = select-ext _ _ (e.templates.rows w.templates) λ r.
      ap
        (λ b.
          str_eq r.service_name service_name
          && r.service_cluster_id == cluster_id
          && b
          && r.is_deleted == 0)
        (same_type-is_expansion r.schedule_type)

  -- A page of the list, and the number of all its entries, which is not 0.
  pub record Listed (w : World e) (service_name : String) (page page_size cluster_id : ℕ)
      (answer : List ExpandTemplate × ℕ) : Type 0 where
    pub count : answer.1 ≡ length (expanding w service_name cluster_id)
    pub some_match : answer.1 ≡ 0 → ⊥
    pub entries :
        answer.0
        ≡ map (entry (e.instructions.rows w.instructions)) (
            at_most page_size (drop ((page - 1) * page_size) (expanding w service_name cluster_id)))

  module _ (service_name : String) (page page_size cluster_id : ℕ) (w : World e) where
    -- The rows of the asked page, and how many match.
    abbrev asked : List ScheduleTemplate × ℕ
    asked = (
      at_most page_size (drop ((page - 1) * page_size) (expanding w service_name cluster_id)),
      length (expanding w service_name cluster_id),
    )

    abbrev Paged : List ScheduleTemplate × ℕ → World e → Type 0
    Paged a w1 = (ok asked ≡ ok a) × (w1.instructions ≡ w.instructions)

    page-Ends :
        Ends ⊥ Paged
          (on_templates (Db.query e.templates (expands e service_name cluster_id) page page_size) w)
    unfolding Db.query
    page-Ends = Ends-statement _ _ _ w λ a h. (
      let p = expands e service_name cluster_id in
          subst (Read (ok asked)) h (
            subst
              (λ (l : List ScheduleTemplate).
                Read (ok (at_most page_size (drop ((page - 1) * page_size) l), length l))
                  (e.templates.page p page page_size w.templates).0)
              (select-expands service_name cluster_id w)
              (e.templates.page_law p page page_size w.templates).0),
      refl,
    )

    counted-Ends :
        (rows : List ScheduleTemplate) (n : ℕ) (none_match : Bool) (w1 : World e)
        → none_match ≡ (n == 0)
        → Paged (rows, n) w1
        → Ends ⊥
            (λ answer w'. Listed w service_name page page_size cluster_id answer)
            ((if none_match
                then raise record_not_found
                else (expand_templates e rows >>= λ list. pure (list, n)))
              w1)
    counted-Ends rows n true w1 b p = Ends-raise _ w1
    counted-Ends rows n false w1 b (h, k) =
        Ends-bind _ _ w1 (templates-Ends rows w1) λ xs w2 (hx, hi).
          Ends-pure (xs, n) w2
            (record {
              count = ap (λ q. q.1) (sym (given _ _ h));
              some_match = λ z. ground arith;
              entries =
                  hx
                  ∙ ap (λ t. map (entry (e.instructions.rows t)) rows) k
                  ∙ ap (λ q. map (entry (e.instructions.rows w.instructions)) q.0)
                      (sym (given _ _ h));
            })

    -- What is listed after the query has given `r`.
    answered-Ends :
        (r : Result (List ScheduleTemplate × ℕ)) (w1 : World e)
        → Found Paged r w1
        → Ends ⊥
            (λ answer w'. Listed w service_name page page_size cluster_id answer)
            ((let (rows, count) = or_nothing r in
                if count == 0
                then raise record_not_found
                else (expand_templates e rows >>= λ list. pure (list, count)))
              w1)
    answered-Ends (err x) w1 f = Ends-raise _ w1
    answered-Ends (ok (rows, n)) w1 f = counted-Ends rows n (n == 0) w1 refl f

-- The list of the templates for expanding does not panic. Where it answers, the count is that of the
-- templates of the service and cluster for expanding that are not deleted, at least one, and the list
-- is the asked page of them. Each entry says whether an instruction of its template's group prepares
-- containers, and the last balancer, NGINX or SLB, that the mounts of the group name in capitals.
pub get_expand_list-Listed :
    (e : Env) (service_name : String) (page page_size cluster_id : ℕ) (w : World e)
    → Ends ⊥
        (λ answer w'. Listed e w service_name page page_size cluster_id answer)
        (get_expand_list e service_name page page_size cluster_id w)
unfolding get_expand_list
get_expand_list-Listed e service_name page page_size cluster_id w =
    Ends-bind _ _ w (Ends-attempt _ w (page-Ends e service_name page page_size cluster_id w))
      λ r w1 f. answered-Ends e service_name page page_size cluster_id w r w1 f
