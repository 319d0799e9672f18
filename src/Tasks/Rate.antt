-- ===== src/Tasks/Rate.antt =====
-- The counts and the success rate of `TaskService.Describe`.
use std.Path.{subst}
use mathlib.Core.Path.{ap₂}
use native.Mathlib.Nat.{le-div_iff_mul-le}
use schedulx.Prelude.{
  ◌≤◌, ℕ, suc, ◌+◌, ◌/◌, ◌<◌, ◌≡◌, ◌==◌, leb, refl, ap, ◌∙◌, sym, List, [], ◌∷◌, Bool, true, false,
  ◌&&◌, if◌then◌else◌, select, length, arith, ◌↔◌, All,
}
use schedulx.Effect.{Exec, Result, ok, err, call, zoom, ◌>>=◌, continue, pure, panic, outcome}
use schedulx.Effect.Gives.{Gives, Returned, Gives-bind, Gives-pure, Gives-panic}
use schedulx.Types.{Instance, InstanceStatus, failed}
use schedulx.Db
use schedulx.Db.Interface.{Read}
use schedulx.Env.{Env}
use schedulx.World.{Site}
use schedulx.Repo.Instances.{same_instance_status, insts_query_by_task_id}
use schedulx.Tasks.{TaskDescribe, tally, described, describe}

abbrev pub in_status : InstanceStatus → Instance → Bool
in_status st r = same_instance_status r.instance_status st

-- Failed, and not in the status that is asked for.
abbrev pub failed_else : InstanceStatus → Instance → Bool
failed_else st r =
    if same_instance_status r.instance_status st
    then false
    else same_instance_status r.instance_status failed

pair_path : {a a' b b' : ℕ} → a ≡ a' → b ≡ b' → ◌≡◌ {A = ℕ × ℕ} (a, b) (a', b')
pair_path p q = ap₂ (λ a b. (a, b)) p q

module _ (st : InstanceStatus) where
  abbrev counts : List Instance → ℕ → ℕ → ℕ × ℕ
  counts l a b = (a + length (select (in_status st) l), b + length (select (failed_else st) l))

  tally_step :
      (r : Instance) (l : List Instance) (a b : ℕ) (p q : Bool)
      → ((a b : ℕ) → tally st l (a, b) ≡ counts l a b)
      → tally st l (if p then (a + 1, b) else if q then (a, b + 1) else (a, b)) ≡ (
        a + length (if p then r ∷ select (in_status st) l else select (in_status st) l),
        b
            + length (
                if (if p then false else q)
                then r ∷ select (failed_else st) l
                else select (failed_else st) l),
      )
  tally_step r l a b true q ih = ih (a + 1) b ∙ pair_path (omega arith) refl
  tally_step r l a b false true ih = ih a (b + 1) ∙ pair_path refl (omega arith)
  tally_step r l a b false false ih = ih a b

  tally_from : (l : List Instance) (a b : ℕ) → tally st l (a, b) ≡ counts l a b
  unfolding tally
  tally_from [] a b = pair_path (omega arith) (omega arith)
  tally_from (r ∷ l) a b =
      tally_step r l a b (same_instance_status r.instance_status st)
        (same_instance_status r.instance_status failed) (tally_from l)

-- The loop over the instances of a task counts those in the status that is asked for, and those that
-- failed without being in it.
pub tally-counts :
    (st : InstanceStatus) (l : List Instance)
    → tally st l (0, 0) ≡ (length (select (in_status st) l), length (select (failed_else st) l))
tally-counts st l = tally_from st l 0 0 ∙ pair_path (omega arith) (omega arith)

module _ {A : Type 0} (p : A → Bool) where
  select_step :
      (x : A) (l : List A) (b : Bool)
      → length (select p l) ≤ length l
      → length (if b then x ∷ select p l else select p l) ≤ length (x ∷ l)
  select_step x l true h = omega arith
  select_step x l false h = omega arith

  select-length : (l : List A) → length (select p l) ≤ length l
  select-length [] = omega arith
  select-length (x ∷ l) = select_step x l (p x) (select-length l)

  full_step :
      (x : A) (l : List A) (b : Bool)
      → p x ≡ b
      → (length (select p l) ≡ length l → All (λ x. p x ≡ true) l)
      → length (if b then x ∷ select p l else select p l) ≡ length (x ∷ l)
      → (p x ≡ true) × All (λ x. p x ≡ true) l
  full_step x l true c ih h = (c, ih (omega arith))
  full_step x l false c ih h = grind (arith, select-length l)

  full-All : (l : List A) → length (select p l) ≡ length l → All (λ x. p x ≡ true) l
  full-All [] h = tt
  full-All (x ∷ l) h = full_step x l (p x) refl (full-All l) h

  All-full : (l : List A) → All (λ x. p x ≡ true) l → length (select p l) ≡ length l
  All-full [] h = refl
  All-full (x ∷ l) (h, k) = rw h (ap suc (All-full l k))

quotient_passes : (a n : ℕ) → 0 < n → leb 1 (a / n) ≡ leb n a
quotient_passes a n h = ground (arith, le-div_iff_mul-le {k = n} {x = 1} {y = a} h)

-- What an answer of `Describe` says of the rows of the task.
abbrev pub Describes : (e : Env) → InstanceStatus → List Instance → TaskDescribe → Type 0
Describes e st l d =
    (d.total_num ≡ length l)
    × (0 < d.total_num)
    × (d.success_num ≡ length (select (in_status st) l))
    × (d.fail_num ≡ length (select (failed_else st) l))
    × ((e.remote.at_least_one d.success_rate ≡ true) ↔ All (λ r. in_status st r ≡ true) l)

module _ (e : Env) (st : InstanceStatus) where
  rate_iff :
      (l : List Instance)
      → 0 < length l
      → (e.remote.at_least_one (e.remote.format_float (length (select (in_status st) l) / length l))
          ≡ true)
        ↔ All (λ r. in_status st r ≡ true) l
  rate_iff l h =
      let passes =
        e.remote.format_law (length (select (in_status st) l) / length l)
        ∙ quotient_passes (length (select (in_status st) l)) (length l) h in
      (
        λ t. full-All (in_status st) l (full (sym passes ∙ t)),
        λ c. passes ∙ rw (All-full (in_status st) l c) (ground arith),
      )
    where
      full :
          leb (length l) (length (select (in_status st) l)) ≡ true
          → length (select (in_status st) l) ≡ length l
      full t = grind (arith, select-length (in_status st) l)

  described_step :
      (l : List Instance) (b : Bool)
      → (length l == 0) ≡ b
      → Gives {S = Site e} (Describes e st l) (
          if b
          then panic
          else pure (record {
            total_num = length l;
            success_num = length (select (in_status st) l);
            fail_num = length (select (failed_else st) l);
            success_rate = e.remote.format_float (length (select (in_status st) l) / length l);
          }))
  described_step l true h = Gives-panic
  described_step l false h =
      let some_row = positive (length l) h in
      Gives-pure _ (refl, some_row, refl, refl, rate_iff l some_row)
    where
      positive : (n : ℕ) → (n == 0) ≡ false → 0 < n
      positive n h = ground arith

  described-Describes :
      (l : List Instance)
      → Gives {S = Site e} (Describes e st l) (described e (length l) (tally st l (0, 0)))
  unfolding described
  described-Describes l = rw tally-counts (described_step l (length l == 0) refl)

  Read-Describes :
      (rows : List Instance) (r : Result (List Instance))
      (f : List Instance → Exec (Site e) TaskDescribe) (s : Site e)
      → Read (ok rows) r
      → ((l : List Instance) → Gives (Describes e st l) (f l))
      → Returned (Describes e st rows) (continue (outcome r) f s).0
  Read-Describes rows (ok l) f s h k =
      subst (λ q. Returned (Describes e st q) (f l s).0) (cc h) ((k l).at s)
  Read-Describes rows (err x) f s h k = tt

-- Whatever `Describe` answers is true of the rows of the task: there is at least one, the totals are
-- the numbers of rows, of rows in the status that is asked for and of failed ones, and the rate
-- passes for 1 exactly when every row is in that status.
pub describe-Describes :
    (e : Env) (task_id : ℕ) (st : InstanceStatus) (s : Site e)
    → Returned
        (Describes e st (select (λ r. r.task_id == task_id && true) (e.instances.rows s.instances)))
        (describe e task_id st s).0
unfolding describe insts_query_by_task_id ◌>>=◌ zoom call Db.query_all
describe-Describes e task_id st s =
    Read-Describes e st _ _ _ _
      (e.instances.find_law (λ r. r.task_id == task_id && true) s.instances).0
      λ l. Gives-bind _ _ λ _. described-Describes e st l
