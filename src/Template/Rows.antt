-- ===== src/Template/Rows.antt =====
-- The instructions that one step adds: it does one action and writes down what undoes it.
use std.Path.{subst}
use schedulx.Prelude.{
  ◌∙◌, ℕ, ◌<◌, ◌≡◌, refl, String, ◌==◌, true, false, [], ◌∷◌, ◌++◌, append_assoc, append-nil, none,
  ◌⊎◌, arith, All,
}
use schedulx.Effect.Ends.{Ends, Ends-statement}
use schedulx.Types.{Instruction, Action}
use schedulx.Db
use schedulx.Db.Interface.{Inserted}
use schedulx.Env.{Env}
use schedulx.World.{World}
use schedulx.Template.Request.{TmplExpandReq}
use schedulx.Template.Instructions.{create_instr, new_instr}
use schedulx.Template.Steps.{Locals, append_ids}
use schedulx.Template.Spec.{undo_all}
use schedulx.Template.Added.{Grown}

-- The part of a request that is missing.
abbrev pub Lacking : TmplExpandReq → Type 0
Lacking req =
    (req.tmpl_info ≡ none) ⊎ (req.base_env ≡ none) ⊎ (req.service_env ≡ none) ⊎ (req.mount ≡ none)

same : (n : ℕ) → (n == n) ≡ true
same n = ground arith

positive-== : (k : ℕ) → 0 < k → (k == 0) ≡ false
positive-== k h = ground arith

module _ (e : Env) where
  -- What the creation of an instruction leaves behind.
  pub record Put (r : Instruction) (w : World e) (n : ℕ) (w' : World e) : Type 0 where
    pub put :
        e.instructions.rows w'.instructions
        ≡ e.instructions.rows w.instructions ++ record r { id = n } ∷ []
    pub positive : 0 < n
    pub above : All (λ q. q.id < n) (e.instructions.rows w.instructions)
    pub templates : w'.templates ≡ w.templates
    pub clusters : w'.site.clusters ≡ w.site.clusters

  pub create_instr-Ends :
      {N : Type 0} (r : Instruction) (w : World e) → Ends N (Put r w) (create_instr e r w)
  unfolding create_instr Db.create
  create_instr-Ends r w = Ends-statement _ _ _ w λ n h.
      let law =
        subst
          (λ q.
            Inserted (λ (r : Instruction). r.id) (λ n r. record r { id = n })
              (e.instructions.rows w.instructions) r q
              (e.instructions.rows (e.instructions.insert r w.instructions).1))
          h (e.instructions.insert_law r w.instructions) in
      record { put = law.0; positive = law.1; above = law.2; templates = refl; clusters = refl }

  module _ (t r : ℕ) (differ : t < r) where
    other : (t == r) ≡ false
    other = ground arith

    other' : (r == t) ≡ false
    other' = ground arith

    -- One instruction of the template itself, that nothing takes back.
    pub one-Grown :
        (cmd params : String) (a : Action) (w w' : World e) (v : Locals) (n : ℕ)
        → undo_all (a ∷ []) ≡ []
        → Put (new_instr cmd params a t) w n w'
        → Grown e t r (a ∷ []) w v w' (append_ids v (n, 0))
    unfolding append_ids
    one-Grown cmd params a w w' v n u p = record {
      added = record (new_instr cmd params a t) { id = n } ∷ [];
      grows = p.put;
      group = rw same;
      rev_group = rw (other, append-nil);
      done = rw same;
      undone = rw (other, u);
      tmpls = refl;
      templates = p.templates;
      clusters = p.clusters;
    }

    -- An instruction of the template, and one of its reverse that takes it back.
    pub two-Grown :
        (cmd params cmd' params' : String) (a b : Action) (w w' w'' : World e) (v : Locals)
        (n k : ℕ)
        → undo_all (a ∷ []) ≡ b ∷ []
        → Put (new_instr cmd params a t) w n w'
        → Put (new_instr cmd' params' b r) w' k w''
        → Grown e t r (a ∷ []) w v w'' (append_ids v (n, k))
    unfolding append_ids
    two-Grown cmd params cmd' params' a b w w' w'' v n k u p q = record {
      added =
          record (new_instr cmd params a t) { id = n }
          ∷ record (new_instr cmd' params' b r) { id = k }
          ∷ [];
      grows = rw (q.put, p.put, append_assoc);
      group = rw (same, other');
      rev_group = rw (positive-== k q.positive, other, same);
      done = rw (same, other');
      undone = rw (other, same, u);
      tmpls = refl;
      templates = q.templates ∙ p.templates;
      clusters = q.clusters ∙ p.clusters;
    }
