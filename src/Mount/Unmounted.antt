-- ===== src/Mount/Unmounted.antt =====
-- The rows of the instances under `Umount` of service/mountsvc.go.
use schedulx.Effect.Gives.{
  Gives, Returned, Gives-bind, Gives-if, Gives-raise, Gives-pure, Gives-zoom, given_bind-Keeps,
}
use std.Path.{subst}
use schedulx.Prelude.{
  ℕ, ◌<◌, ◌≡◌, refl, sym, ap, ◌∙◌, ◌==◌, ◌&&◌, String, false, List, [], ◌∷◌, map, map_if, All, some,
  arith, length,
}
use mathlib.Core.Path.{ap₂}
use schedulx.Effect.{
  Exec, Result, ok, err, record_not_found, Outcome, returns, fails, panics, crashes, call, attempt,
  attempted,
}
use schedulx.Effect.Keeps.{
  Keeps, Keeps-zoom, Keeps-call, Keeps-bind, Keeps-attempt, keeps_rules, Keeps-if, Keeps-raise,
  Keeps-pure,
}
use schedulx.Types.{Instance, InstanceInfo, unalb, alb}
use schedulx.Db
use schedulx.Db.Interface.{Updated}
use schedulx.Env.{Env}
use schedulx.World.{Site, on_instances, on_cloud}
use schedulx.Repo.Instances.{
  batch_update_status, query_insts_to_umount, insts_query_cnt_limit, last_task_id, scanned, text_in,
  set_instance_status,
}
use schedulx.Mount.{umount, umount_found, umount_list}

-- The task id that the query hands on: the structures were filled without that column.
last_task_zero : (l : List Instance) → last_task_id 0 (map scanned l) ≡ 0
unfolding last_task_id scanned
last_task_zero [] = refl
last_task_zero (r ∷ l) = last_task_zero l

untouched :
    (ips : List String) (f : Instance → Instance) (l : List Instance)
    → All (λ r. 0 < r.task_id) l
    → map_if (λ r. r.task_id == 0 && text_in ips r.ip_inner) f l ≡ l
untouched ips f [] h = refl
untouched ips f (r ∷ l) (h, k) = ap₂ ◌∷◌ (rw (other r.task_id h) refl) (untouched ips f l k)
  where
    other : (n : ℕ) → 0 < n → (n == 0) ≡ false
    other n h = ground arith

abbrev Zero : Result (ℕ × List InstanceInfo) → Type 0
Zero (ok found) = found.0 ≡ 0
Zero (err x) = Unit {0}

attempted-Zero :
    {S : Type 0} (m : Exec S (ℕ × List InstanceInfo))
    → Gives (λ found. found.0 ≡ 0) m
    → Gives Zero (attempt m)
unfolding attempt
attempted-Zero m k = record { at = λ s. zero_of (m s).0 (k.at s) }
  where
    zero_of :
        (o : Outcome (ℕ × List InstanceInfo))
        → Returned (λ found. found.0 ≡ 0) o
        → Returned Zero (attempted o)
    zero_of (returns found) h = h
    zero_of (fails x) h = tt
    zero_of panics h = tt
    zero_of crashes h = tt

module _ (e : Env) (before : List Instance) (owned : All (λ r. 0 < r.task_id) before) where
  abbrev Untouched : Site e → Type 0
  Untouched s = e.instances.rows s.instances ≡ before

  query-Zero : (c n : ℕ) → Gives (λ found. found.0 ≡ 0) (query_insts_to_umount e c (some alb) n)
  unfolding query_insts_to_umount
  query-Zero c n =
      Gives-bind _ _
        λ l. Gives-if (length l == 0) _ _ (Gives-raise _) (Gives-pure _ (last_task_zero l))

  limited-Untouched :
      (c n : ℕ) → Keeps (λ t. e.instances.rows t ≡ before) (insts_query_cnt_limit e c (some alb) n)
  unfolding insts_query_cnt_limit Db.query_limit
  limited-Untouched c n = Keeps-call _ λ t h. (e.instances.limit_law _ n t).1 ∙ h

  stored-Untouched :
      (c n : ℕ) → Keeps (λ t. e.instances.rows t ≡ before) (query_insts_to_umount e c (some alb) n)
  unfolding query_insts_to_umount
  stored-Untouched c n =
      Keeps-bind _ _ (limited-Untouched c n)
        λ l. Keeps-if (length l == 0) _ _ (Keeps-raise _) (Keeps-pure _)

  query-Untouched :
      (c n : ℕ) → Keeps Untouched (on_instances {e = e} (query_insts_to_umount e c (some alb) n))
  query-Untouched c n = Keeps-zoom _ _ _ λ s h. (stored-Untouched c n).at s.instances h

  Updated-Untouched :
      (ips : List String) (f : Instance → Instance) (l l' : List Instance) (r : Result ℕ)
      → Updated l (λ r. r.task_id == 0 && text_in ips r.ip_inner) f r l'
      → l ≡ before
      → l' ≡ before
  Updated-Untouched ips f l l' (ok k) u h = u.0 ∙ ap (map_if _ f) h ∙ untouched ips f before owned
  Updated-Untouched ips f l l' (err x) u h = u ∙ h

  batch-Untouched :
      (ips : List String)
      → Keeps Untouched (on_instances {e = e} (batch_update_status e ips 0 unalb))
  unfolding batch_update_status Db.updates call
  batch-Untouched ips = Keeps-zoom _ _ _ λ s h.
      Updated-Untouched ips _ _ _ _
        (e.instances.update_law (λ r. r.task_id == 0 && text_in ips r.ip_inner)
          (set_instance_status unalb) s.instances)
        h

  on_cloud-Untouched :
      {A : Type 0} (m : Exec e.remote.Cloud A) → Keeps Untouched (on_cloud {e = e} m)
  on_cloud-Untouched m = Keeps-zoom _ _ _ λ s h. h

  list-Untouched : (v : String) (l : List InstanceInfo) → Keeps Untouched (umount_list e v (0, l))
  unfolding umount_list
  list-Untouched v l =
      Keeps-if _ _ _
        (Keeps-bind _ _ (on_cloud-Untouched _)
          λ _. Keeps-bind _ _ (batch-Untouched _) λ _. Keeps-pure _)
        (Keeps-raise _)

  found-Untouched :
      (v : String) (r : Result (ℕ × List InstanceInfo))
      → Zero r
      → Keeps Untouched (umount_found e v r)
  unfolding umount_found
  found-Untouched v (ok (t, l)) h =
      subst (λ k. Keeps Untouched (umount_list e v (k, l))) (sym h) (list-Untouched v l)
  found-Untouched v (err record_not_found) h = search keeps_rules
  found-Untouched v (err x) h = search keeps_rules

  umounted : (c n : ℕ) (v : String) → Keeps Untouched (umount e c n v)
  unfolding umount
  umounted c n v =
      given_bind-Keeps Zero _ _ (Keeps-attempt _ (query-Untouched c n))
        (attempted-Zero _ (Gives-zoom _ _ _ (query-Zero c n))) (found-Untouched v)

-- Where every instance belongs to a task, whose id is not 0, taking instances out of the load
-- balancer leaves the rows of all instances as they are, whatever the calls answer.
pub umount-rows :
    (e : Env) (service_cluster_id count : ℕ) (v_group_id : String) (s : Site e)
    → All (λ r. 0 < r.task_id) (e.instances.rows s.instances)
    → e.instances.rows (umount e service_cluster_id count v_group_id s).1.instances
      ≡ e.instances.rows s.instances
umount-rows e c n v s owned = (umounted e (e.instances.rows s.instances) owned c n v).at s refl
