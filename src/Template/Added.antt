-- ===== src/Template/Added.antt =====
-- The instructions that the steps of a template add, and the ids that are kept of them.
use schedulx.Prelude.{
  ℕ, ◌≡◌, refl, sym, ◌∙◌, Bool, List, [], ◌∷◌, ◌++◌, map, select, append_assoc, append-nil,
  map-append, arith,
}
use schedulx.Types.{Instruction, Action}
use schedulx.Env.{Env}
use schedulx.World.{World}
use schedulx.Template.Steps.{Locals}
use schedulx.Template.Spec.{ids_of, actions_of, undo_all}

pub select-append :
    {A : Type 0} (p : A → Bool) (l m : List A) → select p (l ++ m) ≡ select p l ++ select p m
select-append p [] m = refl
select-append p (x ∷ l) m = ground (arith, select-append p l m)

pub map-select-append :
    {A B : Type 0} (f : A → B) (p : A → Bool) (l m : List A)
    → map f (select p (l ++ m)) ≡ map f (select p l) ++ map f (select p m)
map-select-append f p l m = rw (select-append, map-append)

pub undo_all-append : (l m : List Action) → undo_all (l ++ m) ≡ undo_all l ++ undo_all m
undo_all-append [] m = refl
undo_all-append (a ∷ l) m = rw (undo_all-append l m, append_assoc)

-- From one point of the loop to another: the instructions of the expanding template `t` do the actions,
-- and those of its reverse `r` undo them.
pub record Grown (e : Env) (t r : ℕ) (acts : List Action) (w : World e) (v : Locals) (w' : World e)
    (v' : Locals) : Type 0 where
  pub added : List Instruction
  pub grows : e.instructions.rows w'.instructions ≡ e.instructions.rows w.instructions ++ added
  pub group : v'.group ≡ v.group ++ ids_of t added
  pub rev_group : v'.rev_group ≡ v.rev_group ++ ids_of r added
  pub done : actions_of t added ≡ acts
  pub undone : actions_of r added ≡ undo_all acts
  pub tmpls : v'.tmpls ≡ v.tmpls
  pub templates : w'.templates ≡ w.templates
  pub clusters : w'.site.clusters ≡ w.site.clusters

module _ (e : Env) (t r : ℕ) where
  pub Grown-self : (w : World e) (v : Locals) → Grown e t r [] w v w v
  Grown-self w v = record {
    added = [];
    grows = sym (append-nil _);
    group = sym (append-nil _);
    rev_group = sym (append-nil _);
    done = refl;
    undone = refl;
    tmpls = refl;
    templates = refl;
    clusters = refl;
  }

  pub Grown-trans :
      {a b : List Action} {w w' w'' : World e} {v v' v'' : Locals}
      → Grown e t r a w v w' v'
      → Grown e t r b w' v' w'' v''
      → Grown e t r (a ++ b) w v w'' v''
  Grown-trans g h = record {
    added = g.added ++ h.added;
    grows = rw (h.grows, g.grows, append_assoc);
    group = rw (h.group, g.group, map-select-append, append_assoc);
    rev_group = rw (h.rev_group, g.rev_group, map-select-append, append_assoc);
    done = rw (map-select-append, g.done, h.done);
    undone = rw (map-select-append, g.undone, h.undone, undo_all-append);
    tmpls = h.tmpls ∙ g.tmpls;
    templates = h.templates ∙ g.templates;
    clusters = h.clusters ∙ g.clusters;
  }
