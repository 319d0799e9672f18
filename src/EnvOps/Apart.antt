-- ===== src/EnvOps/Apart.antt =====
-- The instances of other tasks under a step of a deployment of service/envsvc.go.
use text.Mathlib.Text.{◌==◌ as str_eq}
use schedulx.Prelude.{
  ℕ, ◌≡◌, refl, ap, ◌∙◌, ◌==◌, ◌&&◌, not, String, Bool, true, false, if◌then◌else◌, List, [], ◌∷◌,
  select, map_if, Option, none, some,
}
use schedulx.Effect.{Exec, Error, Result, ok, err}
use schedulx.Effect.Keeps.{
  Keeps, Keeps-zoom, Keeps-call, Keeps-bind, Keeps-if, Keeps-pure, Keeps-raise, Keeps-ignore,
  Keeps-gets,
}
use schedulx.Types.{Instance, InstanceInfo, InstanceAuth, InstanceStatus}
use schedulx.Db
use schedulx.Db.Interface.{Updated}
use schedulx.Env.{Env}
use schedulx.World.{Site, on_cloud}
use schedulx.Repo.Instances.{update_inst}
use schedulx.EnvOps.Verdict.{Verdict}
use schedulx.EnvOps.Jobs.{call_back_svc}
use schedulx.EnvOps.Deploy.{exec_cmd_with_update, deploy_each, do_deploy, return_error}

module _ {A : Type 0} (p q : A → Bool) (f : A → A) where
  skip_step :
      (x : A) (l : List A) (b : Bool)
      → p x ≡ b
      → ((x : A) → p x ≡ true → (q x ≡ false) × (q (f x) ≡ false))
      → select q (map_if p f l) ≡ select q l
      → select q ((if b then f x else x) ∷ map_if p f l) ≡ select q (x ∷ l)
  skip_step x l true c h ih = rw ((h x c).0, (h x c).1) ih
  skip_step x l false c h ih = ap (λ m. if q x then x ∷ m else m) ih

  -- What passes `q` is not changed at the elements that pass `p`, if none of them passes `q`.
  select-map_if :
      (l : List A)
      → ((x : A) → p x ≡ true → (q x ≡ false) × (q (f x) ≡ false))
      → select q (map_if p f l) ≡ select q l
  select-map_if [] h = refl
  select-map_if (x ∷ l) h = skip_step x l (p x) refl h (select-map_if l h)

abbrev pub of_others : ℕ → Instance → Bool
of_others t r = not (r.task_id == t)

module _ (e : Env) (t : ℕ) (before : List Instance) where
  abbrev Apart : Site e → Type 0
  Apart s = select (of_others t) (e.instances.rows s.instances) ≡ before

  abbrev RowsApart : e.instances.Store → Type 0
  RowsApart s = select (of_others t) (e.instances.rows s) ≡ before

  module _ (id : String) (f : Instance → Instance)
      (same : (r : Instance) → (f r).task_id ≡ r.task_id) where
    abbrev where_row : Instance → Bool
    where_row r = r.task_id == t && str_eq r.instance_id id

    both : (a b : Bool) → (a && b) ≡ true → a ≡ true
    both true b h = refl
    both false b h = h

    none_other :
        (r : Instance) → where_row r ≡ true → (of_others t r ≡ false) × (of_others t (f r) ≡ false)
    none_other r h =
        let mine = both (r.task_id == t) _ h in
        (ap not mine, ap (λ k. not (k == t)) (same r) ∙ ap not mine)

    Updated-RowsApart :
        (l l' : List Instance) (r : Result ℕ)
        → Updated l where_row f r l'
        → select (of_others t) l ≡ before
        → select (of_others t) l' ≡ before
    Updated-RowsApart l l' (ok k) u h =
        ap (select (of_others t)) u.0 ∙ select-map_if where_row (of_others t) f l none_other ∙ h
    Updated-RowsApart l l' (err x) u h = ap (select (of_others t)) u ∙ h

    updates-RowsApart : Keeps RowsApart (Db.updates e.instances where_row f)
    unfolding Db.updates
    updates-RowsApart =
        Keeps-call _ λ s h. Updated-RowsApart _ _ _ (e.instances.update_law where_row f s) h

  first-RowsApart : (p : Instance → Bool) → Keeps RowsApart (Db.query_first e.instances p)
  unfolding Db.query_first
  first-RowsApart p =
      Keeps-call _ λ s h. ap (select (of_others t)) (e.instances.first_law p s).1 ∙ h

  update_inst-RowsApart :
      (id : String) (st : InstanceStatus) (msg : String)
      → Keeps RowsApart (update_inst e t id st msg)
  unfolding update_inst
  update_inst-RowsApart id st msg = Keeps-bind _ _ (first-RowsApart _) λ _.
      Keeps-bind _ _ (updates-RowsApart id _ (λ r. refl))
        λ n. Keeps-if (n == 1) _ _ (Keeps-pure tt) (Keeps-raise _)

  on_cloud-Apart : {A : Type 0} (m : Exec e.remote.Cloud A) → Keeps Apart (on_cloud {e = e} m)
  on_cloud-Apart m = Keeps-zoom _ _ _ λ s h. h

  call_back-Apart : (i : InstanceInfo) (v : Verdict) → Keeps Apart (call_back_svc e t i v)
  unfolding call_back_svc
  call_back-Apart i v =
      Keeps-ignore _ (Keeps-zoom _ _ _ λ s h. (update_inst-RowsApart _ _ _).at s.instances h)

  exec_cmd-Apart :
      (cmd : String) (auth : Option InstanceAuth) (st : InstanceStatus) (i : InstanceInfo)
      → Keeps Apart (exec_cmd_with_update e t cmd auth st i)
  unfolding exec_cmd_with_update
  exec_cmd-Apart cmd auth st i =
      Keeps-bind _ _ (on_cloud-Apart _) λ v. Keeps-bind _ _ (call_back-Apart i v) λ _. Keeps-pure _

  each-Apart :
      (cmd : String) (auth : Option InstanceAuth) (st : InstanceStatus) (l : List InstanceInfo)
      (shared : Option Error)
      → Keeps Apart (deploy_each e t cmd auth st l shared)
  unfolding deploy_each
  each-Apart cmd auth st [] shared = Keeps-pure _
  each-Apart cmd auth st (i ∷ l) shared =
      Keeps-bind _ _ (exec_cmd-Apart cmd auth st i) λ x. each-Apart cmd auth st l _

  return_error-Apart : (x : Option Error) → Keeps Apart (return_error x)
  unfolding return_error
  return_error-Apart none = Keeps-pure tt
  return_error-Apart (some x) = Keeps-raise x

  deploy-Apart :
      (cmd : String) (l : List InstanceInfo) (auth : Option InstanceAuth) (st : InstanceStatus)
      → Keeps Apart (do_deploy e t cmd l auth st)
  unfolding do_deploy
  deploy-Apart cmd l auth st =
      Keeps-bind _ _ (Keeps-gets _)
        λ order. Keeps-bind _ _ (each-Apart cmd auth st order none) return_error-Apart

-- A step of a deployment of one task, however it ends, leaves the rows of the instances of all other
-- tasks as they were.
pub of_others-do_deploy :
    (e : Env) (t : ℕ) (cmd : String) (l : List InstanceInfo) (auth : Option InstanceAuth)
    (st : InstanceStatus) (s : Site e)
    → select (of_others t) (e.instances.rows (do_deploy e t cmd l auth st s).1.instances)
      ≡ select (of_others t) (e.instances.rows s.instances)
of_others-do_deploy e t cmd l auth st s = (deploy-Apart e t _ cmd l auth st).at s refl
