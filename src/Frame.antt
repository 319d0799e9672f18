-- ===== src/Frame.antt =====
-- The table of tasks under the instructions of one task (service/instrsvc.go, service/schedulesvc.go):
-- the parts of a row that an instruction writes, and the actions one by one.
pub mod Parts
pub mod Polling
pub mod Services
pub mod Actions
pub mod Deploys
pub mod Run
use mathlib.Core.Path.{ap₂}
use schedulx.Prelude.{
  true, false, ==_iff, ℕ, ◌==◌, ◌≡◌, refl, ap, List, [], ◌∷◌, none, if◌then◌else◌, map, map_if,
  arith, Bool,
}
use schedulx.Effect.{Exec, Result, ok, err, call, zoom}
use schedulx.Effect.Keeps.{Keeps, Keeps-zoom, Keeps-call}
use schedulx.Types.{Task, step_init}
use schedulx.Db
use schedulx.Db.Interface.{Updated}
use schedulx.Env.{Env}
use schedulx.World.{Job, Site, on_tasks, on_instances, on_clusters, on_cloud}

-- A row of the task `n` without what its instructions may write; any other row as it is.
abbrev pub frame : ℕ → Task → Task
frame n r =
    if r.id == n
    then record r { task_step = step_init; msg = ""; finish_at = none; relation_task_id = "" }
    else r

abbrev pub same_row : ℕ → Task → Bool
same_row n r = r.id == n

if_same :
    {A B : Type 0} (g : A → B) (b : Bool) (x y : A)
    → (b ≡ true → g x ≡ g y)
    → g (if b then x else y) ≡ g y
if_same g true x y h = h refl
if_same g false x y h = refl

map_if-frame :
    (n : ℕ) (f : Task → Task) (l : List Task)
    → ((r : Task) → r.id ≡ n → frame n (f r) ≡ frame n r)
    → map (frame n) (map_if (same_row n) f l) ≡ map (frame n) l
map_if-frame n f [] h = refl
map_if-frame n f (r ∷ l) h =
    ap₂ ◌∷◌ (if_same (frame n) (r.id == n) (f r) r (λ t. h r ((==_iff _ _).0 t)))
      (map_if-frame n f l h)

module _ (e : Env) (n : ℕ) (before : List Task) where
  -- The rows of the tasks, seen through `frame n`, are those of `before`.
  abbrev pub Framed : Site e → Type 0
  Framed s = map (frame n) (e.tasks.rows s.tasks) ≡ before

  Updated-Framed :
      (f : Task → Task) (rows rows' : List Task) (r : Result ℕ)
      → ((r : Task) → r.id ≡ n → frame n (f r) ≡ frame n r)
      → Updated rows (same_row n) f r rows'
      → map (frame n) rows ≡ before
      → map (frame n) rows' ≡ before
  Updated-Framed f rows rows' (ok k) c u h = rw (u.0, map_if-frame n f rows c) h
  Updated-Framed f rows rows' (err x) c u h = rw u h

  pub update-Framed :
      (f : Task → Task)
      → ((r : Task) → r.id ≡ n → frame n (f r) ≡ frame n r)
      → Keeps Framed (on_tasks {e = e} (Db.updates e.tasks (λ r. r.id == n) f))
  unfolding Db.updates call
  update-Framed f c =
      Keeps-zoom _ _ _ λ s h. Updated-Framed f _ _ _ c (e.tasks.update_law (same_row n) f s.tasks) h

  pub get-Framed : (k : ℕ) → Keeps Framed (on_tasks {e = e} (Db.get e.tasks k))
  unfolding Db.get call
  get-Framed k = Keeps-zoom _ _ _ λ s h. rw (e.tasks.first_law (λ r. r.id == k) s.tasks).1 h

  module _ {A : Type 0} where
    pub on_instances-Framed : (m : Exec e.instances.Store A) → Keeps Framed (on_instances {e = e} m)
    on_instances-Framed m = Keeps-zoom _ _ _ λ s h. h

    pub on_clusters-Framed : (m : Exec e.clusters.Store A) → Keeps Framed (on_clusters {e = e} m)
    on_clusters-Framed m = Keeps-zoom _ _ _ λ s h. h

    pub on_cloud-Framed : (m : Exec e.remote.Cloud A) → Keeps Framed (on_cloud {e = e} m)
    on_cloud-Framed m = Keeps-zoom _ _ _ λ s h. h

    pub pure_call-Framed : (r : Result A) → Keeps Framed (call (λ s. (r, s)))
    pure_call-Framed r = Keeps-call _ λ s h. h
