-- ===== src/Tasks/Unfinished.antt =====
-- What the answer of `HasRunningTask` means.
use std.Path.{subst}
use text.Mathlib.Text.{◌==◌ as str_eq}
use schedulx.Prelude.{
  ℕ, ◌==◌, ◌&&◌, ltb, String, Bool, List, [], ◌∷◌, map, select, length, any, any-ext,
  length-select-any, arith, ◌≡◌, refl, sym, ap, ◌∙◌, true, false, ◌||◌,
}
use schedulx.Effect.{Error, Result, ok, err, Exec, pure, raise, ◌>>=◌}
use schedulx.Effect.Ends.{Ends, Ends-bind, Ends-pure, Ends-statement, Ends-zoom, Ends-attempt}
use schedulx.Types.{
  Task, ScheduleTemplate, ServiceCluster, TaskStatus, running, rolling_back, success,
}
use schedulx.Db
use schedulx.Db.Interface.{Read}
use schedulx.Env.{Env}
use schedulx.World.{World, on_site}
use schedulx.Repo.Tasks.{id_in, status_in, count_by_cond}
use schedulx.Repo.Templates.{get_all_tmpls_by_svc_cluster_id}
use schedulx.Repo.Services.{get_service_clusters, cluster_of}
use schedulx.Tasks.Running.{has_running_task, some_rows, unfinished}

id_in-select :
    {A : Type 0} (id_of : A → ℕ) (p : A → Bool) (l : List A) (n : ℕ)
    → id_in (map id_of (select p l)) n ≡ any (λ x. p x && id_of x == n) l
id_in-select id_of p [] n = refl
id_in-select id_of p (x ∷ l) n = ground (arith, id_in-select id_of p l n)

-- A task in one of these states is not finished.
abbrev pub going : TaskStatus → Bool
going TaskStatus.init = true
going running = true
going rolling_back = true
going success = false
going TaskStatus.fail = false

status_in-going : (s : TaskStatus) → status_in unfinished s ≡ going s
status_in-going TaskStatus.init = refl
status_in-going running = refl
status_in-going rolling_back = refl
status_in-going success = refl
status_in-going TaskStatus.fail = refl

module _ (e : Env) (w : World e) where
  -- Whether a template belongs to a cluster of the service.
  abbrev pub held : String → String → ScheduleTemplate → Bool
  held service_name cluster_name m =
      any
        (λ c.
          (str_eq c.service_name service_name
            && (str_eq cluster_name "" || str_eq c.cluster_name cluster_name))
          && c.id == m.service_cluster_id)
        (e.clusters.rows w.site.clusters)

  -- Whether some task that is not finished runs a template, not deleted, of a cluster of the service.
  abbrev pub occupied : String → String → Bool
  occupied service_name cluster_name =
      any
        (λ k.
          any
            (λ m.
              (held service_name cluster_name m && m.is_deleted == 0) && m.id == k.sched_tmpl_id)
            (e.templates.rows w.templates)
          && going k.task_status)
        (e.tasks.rows w.site.tasks)

module _ {S A B : Type 0} {N : Type 0} {Q : B → S → Type 0} where
  Ends-some_rows :
      (x : Error) (r : Result (List A)) (f : List A → Exec S B) (s : S)
      → ((l : List A) → r ≡ ok l → Ends N Q (f l s))
      → Ends N Q ((some_rows x r >>= f) s)
  unfolding some_rows raise pure ◌>>=◌
  Ends-some_rows x (ok []) f s k = record { at = tt }
  Ends-some_rows x (ok (a ∷ l)) f s k = record { at = (k (a ∷ l) refl).at }
  Ends-some_rows x (err y) f s k = record { at = tt }

module _ (e : Env) (service_name cluster_name : String) where
  clusters-Ends :
      (w : World e)
      → Ends ⊥
          (λ l w'.
            (ok (select (cluster_of e service_name cluster_name) (e.clusters.rows w.site.clusters))
              ≡ ok l)
            × (w'.templates ≡ w.templates)
            × (w'.site.tasks ≡ w.site.tasks))
          (get_service_clusters e service_name cluster_name w)
  unfolding get_service_clusters Db.query_all
  clusters-Ends w = Ends-zoom _ _ _ w (
      Ends-statement _ _ _ w.site λ l h. (
        let p = cluster_of e service_name cluster_name in
            subst (Read (ok (select p (e.clusters.rows w.site.clusters)))) h
              (e.clusters.find_law p w.site.clusters).0,
        refl,
        refl,
      ))

  tmpls-Ends :
      (ids : List ℕ) (w : World e)
      → Ends ⊥
          (λ l w'.
            (ok (
                select
                  (λ m. id_in ids m.service_cluster_id && m.is_deleted == 0)
                  (e.templates.rows w.templates))
              ≡ ok l)
            × (w'.site.tasks ≡ w.site.tasks))
          (get_all_tmpls_by_svc_cluster_id e ids w)
  unfolding get_all_tmpls_by_svc_cluster_id Db.query_all
  tmpls-Ends ids w = Ends-statement _ _ _ w λ l h. (
    let p = λ (m : ScheduleTemplate). id_in ids m.service_cluster_id && m.is_deleted == 0 in
        subst (Read (ok (select p (e.templates.rows w.templates)))) h
          (e.templates.find_law p w.templates).0,
    refl,
  )

  count-Ends :
      (ids : List ℕ) (w : World e)
      → Ends ⊥
          (λ n w'.
            ok (
              length (
                select
                  (λ k. id_in ids k.sched_tmpl_id && status_in unfinished k.task_status)
                  (e.tasks.rows w.site.tasks)))
            ≡ ok n)
          (on_site (count_by_cond e ids unfinished) w)
  unfolding count_by_cond Db.count
  count-Ends ids w = Ends-zoom _ _ _ w (
      Ends-statement _ _ _ w.site λ n h.
        let p = λ (k : Task). id_in ids k.sched_tmpl_id && status_in unfinished k.task_status in
        subst (Read (ok (length (select p (e.tasks.rows w.site.tasks))))) h
          (e.tasks.count_law p w.site.tasks).0)

  counted :
      (w : World e)
      → let clusters =
          select (cluster_of e service_name cluster_name) (e.clusters.rows w.site.clusters) in
        let tmpls =
          select
            (λ m. id_in (map (λ c. c.id) clusters) m.service_cluster_id && m.is_deleted == 0)
            (e.templates.rows w.templates) in
        ltb 0 (
          length (
            select
              (λ k.
                id_in (map (λ m. m.id) tmpls) k.sched_tmpl_id && status_in unfinished k.task_status)
              (e.tasks.rows w.site.tasks)))
        ≡ occupied e w service_name cluster_name
  counted w =
      let co = cluster_of e service_name cluster_name in
      let tasks = e.tasks.rows w.site.tasks in
      let tmpls = e.templates.rows w.templates in
      let clusters = e.clusters.rows w.site.clusters in
      length-select-any _ tasks
      ∙ any-ext _ _ tasks λ k. rw (status_in-going k.task_status) (
          ap (λ b. b && going k.task_status)
            (id_in-select (λ m. m.id) _ tmpls k.sched_tmpl_id
              ∙ any-ext _ _ tmpls λ m.
                ap (λ b. (b && m.is_deleted == 0) && m.id == k.sched_tmpl_id)
                  (id_in-select (λ c. c.id) co clusters m.service_cluster_id)))

  -- The lists that the queries have given, in place of the rows.
  answered :
      (w : World e) (clusters : List ServiceCluster) (tmpls : List ScheduleTemplate) (n : ℕ)
      → select (cluster_of e service_name cluster_name) (e.clusters.rows w.site.clusters) ≡ clusters
      → select
          (λ m. id_in (map (λ c. c.id) clusters) m.service_cluster_id && m.is_deleted == 0)
          (e.templates.rows w.templates)
        ≡ tmpls
      → length (
          select
            (λ k.
              id_in (map (λ m. m.id) tmpls) k.sched_tmpl_id && status_in unfinished k.task_status)
            (e.tasks.rows w.site.tasks))
        ≡ n
      → ltb 0 n ≡ occupied e w service_name cluster_name
  answered w clusters tmpls n h k l = rw (sym l, sym k, sym h) (counted w)

  running-Ends :
      (w : World e)
      → Ends ⊥
          (λ b w'. b ≡ occupied e w service_name cluster_name)
          (has_running_task e service_name cluster_name w)
  unfolding has_running_task
  running-Ends w = Ends-bind _ _ w (Ends-attempt _ w (clusters-Ends w)) λ r w1 a.
      Ends-some_rows _ r _ w1 λ clusters h.
        Ends-bind _ _ w1 (Ends-attempt _ w1 (tmpls-Ends _ w1)) λ q w2 b.
          Ends-some_rows _ q _ w2 λ tmpls k. Ends-bind _ _ w2 (count-Ends _ w2) λ n w3 c.
            let (found, same_tmpls, same_tasks) = rw h at a in
            let (held, same_tasks') = rw k at b in
            Ends-pure _ w3 (
              answered w clusters tmpls n (cc found) (cc (rw same_tmpls at held))
                (cc (rw (same_tasks', same_tasks) at c)))

-- `HasRunningTask` does not panic, and what it answers is whether some task that is not finished runs a
-- template, not deleted, of a cluster of the service.
pub has_running_task-Ends :
    (e : Env) (service_name cluster_name : String) (w : World e)
    → Ends ⊥
        (λ b w'. b ≡ occupied e w service_name cluster_name)
        (has_running_task e service_name cluster_name w)
has_running_task-Ends e service_name cluster_name w = running-Ends e service_name cluster_name w
