-- ===== src/Template/Deployed.antt =====
-- The instructions of a deployment that `createInstanceTemplate` makes, all or the first of them.
use std.Path.{subst}
use schedulx.Prelude.{
  ℕ, ◌<◌, ◌≡◌, refl, sym, ◌∙◌, List, [], ◌∷◌, ◌++◌, append_assoc, append-nil, length, All, arith,
}
use schedulx.Effect.{
  Exec, pure, ◌>>=◌, Result, ok, err, Outcome, returns, fails, panics, crashes, attempt, attempted,
  outcome, zoom, call, continue,
}
use schedulx.Effect.Ends.{Ends, Ends-bind, Ends-pure, Ends-mono}
use schedulx.Types.{Instruction}
use schedulx.Db
use schedulx.Db.Interface.{Inserted}
use schedulx.Env.{Env}
use schedulx.World.{World}
use schedulx.Template.Request.{DeployInfo, DeployStep}
use schedulx.Template.Instructions.{create_instr, deploy_instr, create_deploy_instr}
use schedulx.Template.Create.{create_deploy_instrs}
use schedulx.Template.Rows.{Put}
use schedulx.Template.Opened.{All-last}

-- What is done after an attempt.
abbrev after : {S A B : Type 0} → (A → Exec S B) → Result A → Exec S (Result B)
after f (ok a) = attempt (f a)
after f (err x) = pure (err x)

module _ {S A B : Type 0} where
  attempt-continue :
      (o : Outcome A) (f : A → Exec S B) (s : S)
      → (let (q, t) = continue o f s in (attempted q, t)) ≡ continue (attempted o) (after f) s
  unfolding attempt pure
  attempt-continue (returns a) f s = refl
  attempt-continue (fails x) f s = refl
  attempt-continue panics f s = refl
  attempt-continue crashes f s = refl

  pub attempt-bind :
      (m : Exec S A) (f : A → Exec S B) (s : S) → attempt (m >>= f) s ≡ (attempt m >>= after f) s
  unfolding attempt ◌>>=◌
  attempt-bind m f s = let (o, t) = m s in attempt-continue o f t

module _ (e : Env) where
  pub record Same (w w' : World e) : Type 0 where
    pub instructions : e.instructions.rows w'.instructions ≡ e.instructions.rows w.instructions
    pub templates : w'.templates ≡ w.templates
    pub clusters : w'.site.clusters ≡ w.site.clusters

  abbrev Tried : Instruction → World e → Result ℕ → World e → Type 0
  Tried r w (ok n) w' = Put e r w n w'
  Tried r w (err x) w' = Same w w'

  Tried-insert :
      {N : Type 0} (r : Instruction) (w : World e) (o : Result ℕ) (s : e.instructions.Store)
      → Inserted
          (λ (r : Instruction). r.id)
          (λ n r. record r { id = n })
          (e.instructions.rows w.instructions)
          r
          o
          (e.instructions.rows s)
      → Ends N (Tried r w) (attempted (outcome o), record w { instructions = s })
  Tried-insert r w (ok n) s law = record {
    at = record { put = law.0; positive = law.1; above = law.2; templates = refl; clusters = refl };
  }
  Tried-insert r w (err x) s law = record {
    at = record { instructions = law; templates = refl; clusters = refl };
  }

  try_instr-Ends :
      {N : Type 0} (r : Instruction) (w : World e)
      → Ends N (Tried r w) (attempt (create_instr e r) w)
  unfolding create_instr Db.create attempt zoom call
  try_instr-Ends r w =
      Tried-insert r w (e.instructions.insert r w.instructions).0 _
        (e.instructions.insert_law r w.instructions)

  module _ (d : DeployInfo) (t : ℕ) where
    -- The rows of the steps, with their ids.
    abbrev pub made : List DeployStep → List ℕ → List Instruction
    made [] ns = []
    made (step ∷ steps) [] = []
    made (step ∷ steps) (n ∷ ns) = record (deploy_instr e step d t) { id = n } ∷ made steps ns

    -- Ids that go up, above those of the old rows.
    abbrev pub Rising : List Instruction → List ℕ → Type 0
    Rising old [] = Unit
    Rising old (n ∷ ns) = All (λ q. q.id < n) old × All (λ m. n < m) ns × Rising old ns

    pub record Laid (steps : List DeployStep) (w : World e) (ns : List ℕ) (w' : World e)
        : Type 0 where
      pub rows :
          e.instructions.rows w'.instructions ≡ e.instructions.rows w.instructions ++ made steps ns
      pub rising : Rising (e.instructions.rows w.instructions) ns
      pub templates : w'.templates ≡ w.templates
      pub clusters : w'.site.clusters ≡ w.site.clusters

    -- The loop has made the instructions of all steps, or those of some first steps.
    abbrev pub Made : List DeployStep → List ℕ → World e → Result (List ℕ) → World e → Type 0
    Made steps before w (ok ids) w' =
        (ns : List ℕ) × Laid steps w ns w' × (ids ≡ before ++ ns) × (length ns ≡ length steps)
    Made steps before w (err x) w' = (ns : List ℕ) × Laid steps w ns w' × (length ns < length steps)

    All-first :
        (old : List Instruction) (r : Instruction) (P : Instruction → Type 0)
        → All P (old ++ r ∷ [])
        → All P old
    All-first [] r P h = tt
    All-first (q ∷ old) r P (h, hs) = (h, All-first old r P hs)

    Rising-first :
        (old : List Instruction) (r : Instruction) (ns : List ℕ)
        → Rising (old ++ r ∷ []) ns
        → All (λ m. r.id < m) ns × Rising old ns
    Rising-first old r [] h = (tt, tt)
    Rising-first old r (n ∷ ns) (a, b, c) =
        let (x, y) = Rising-first old r ns c in
        ((All-last (λ q. q.id < n) old r a, x), (All-first old r (λ q. q.id < n) a, b, y))

    made-none : (steps : List DeployStep) → made steps [] ≡ []
    made-none [] = refl
    made-none (step ∷ steps) = refl

    Laid-none : (steps : List DeployStep) (w w' : World e) → Same w w' → Laid steps w [] w'
    Laid-none steps w w' h = record {
      rows = rw (h.instructions, made-none steps, append-nil) refl;
      rising = tt;
      templates = h.templates;
      clusters = h.clusters;
    }

    Laid-more :
        {w w' w'' : World e} {n : ℕ} (step : DeployStep) (steps : List DeployStep) (ns : List ℕ)
        → Put e (deploy_instr e step d t) w n w'
        → Laid steps w' ns w''
        → Laid (step ∷ steps) w (n ∷ ns) w''
    Laid-more {w = w} {n = n} step steps ns p l =
        let row = record (deploy_instr e step d t) { id = n } in
        let (x, y) =
          Rising-first (e.instructions.rows w.instructions) row ns
            (subst (λ old. Rising old ns) p.put l.rising) in
        record {
          rows = rw (l.rows, p.put, append_assoc) refl;
          rising = (p.above, x, y);
          templates = l.templates ∙ p.templates;
          clusters = l.clusters ∙ p.clusters;
        }

    Made-more :
        {w w' : World e} {n : ℕ} (w'' : World e) (step : DeployStep) (steps : List DeployStep)
        (before : List ℕ) (r : Result (List ℕ))
        → Put e (deploy_instr e step d t) w n w'
        → Made steps (before ++ n ∷ []) w' r w''
        → Made (step ∷ steps) before w r w''
    Made-more {n = n} w'' step steps before (ok ids) p (ns, l, g, h) =
        (n ∷ ns, Laid-more step steps ns p l, rw (g, append_assoc) refl, omega (arith, h))
    Made-more {n = n} w'' step steps before (err x) p (ns, l, h) =
        (n ∷ ns, Laid-more step steps ns p l, omega (arith, h))

    after_try :
        {N : Type 0} (step : DeployStep) (steps : List DeployStep) (before : List ℕ) (w : World e)
        → ((ids : List ℕ) (w' : World e)
            → Ends N (Made steps ids w') (attempt (create_deploy_instrs e d t steps ids) w'))
        → (r : Result ℕ) (w' : World e) → Tried (deploy_instr e step d t) w r w'
        → Ends N
            (Made (step ∷ steps) before w)
            (after (λ n. create_deploy_instrs e d t steps (before ++ n ∷ [])) r w')
    after_try step steps before w k (ok n) w' p =
        Ends-mono _ (λ r w'' q. Made-more w'' step steps before r p q) (k (before ++ n ∷ []) w')
    after_try step steps before w k (err x) w' p =
        Ends-pure (err x) w' ([], Laid-none (step ∷ steps) w w' p, omega arith)

    pub make_instrs-Ends :
        {N : Type 0} (steps : List DeployStep) (before : List ℕ) (w : World e)
        → Ends N (Made steps before w) (attempt (create_deploy_instrs e d t steps before) w)
    unfolding create_deploy_instrs create_deploy_instr attempt pure
    make_instrs-Ends [] before w = record {
      at = (
        [],
        Laid-none [] w w (record { instructions = refl; templates = refl; clusters = refl }),
        sym (append-nil before),
        refl,
      );
    }
    make_instrs-Ends (step ∷ steps) before w =
        rw (attempt-bind (create_instr e (deploy_instr e step d t)) _ w) (
          Ends-bind _ _ w (try_instr-Ends (deploy_instr e step d t) w)
            (after_try step steps before w (make_instrs-Ends steps)))
