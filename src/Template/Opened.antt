-- ===== src/Template/Opened.antt =====
-- The rows of the two templates: how they are entered, and how the groups of instructions are written.
use std.Path.{subst}
use schedulx.Prelude.{
  ℕ, ◌<◌, ◌≡◌, refl, ◌∙◌, String, ◌==◌, ◌&&◌, Bool, false, List, [], ◌∷◌, ◌++◌, append_assoc,
  map_if, All,
}
use schedulx.Effect.{pure, raise}
use schedulx.Effect.Ends.{Ends, Ends-bind, Ends-pure, Ends-raise, Ends-if, Ends-statement}
use schedulx.Types.{ScheduleTemplate}
use schedulx.Db
use schedulx.Db.Interface.{Inserted, Updated}
use schedulx.Env.{Env}
use schedulx.World.{World, on_templates}
use schedulx.Template.Request.{TmpInfo}
use schedulx.Template.Tables.{single_row, update_tmpl}
use schedulx.Template.Steps.{
  expand_tmpl, shrink_tmpl, create_shrink_tmpl, create_expand_tmpl, set_group,
  update_tmpl_instr_group,
}

module _ {A : Type 0} (p : A → Bool) (f : A → A) where
  pub map_if-append : (l m : List A) → map_if p f (l ++ m) ≡ map_if p f l ++ map_if p f m
  map_if-append [] m = refl
  map_if-append (x ∷ l) m = rw (map_if-append l m)

  pub map_if-none : (l : List A) → All (λ x. p x ≡ false) l → map_if p f l ≡ l
  map_if-none [] h = refl
  map_if-none (x ∷ l) (h, hs) = rw (h, map_if-none l hs)

pub All-map :
    {A : Type 0} (P Q : A → Type 0) (l : List A) → ((a : A) → P a → Q a) → All P l → All Q l
All-map P Q [] k h = tt
All-map P Q (x ∷ l) k (h, hs) = (k x h, All-map P Q l k hs)

pub All-snoc :
    {A : Type 0} (P : A → Type 0) (l : List A) (x : A) → All P l → P x → All P (l ++ x ∷ [])
All-snoc P [] x h p = (p, tt)
All-snoc P (y ∷ l) x (h, hs) p = (h, All-snoc P l x hs p)

pub All-last : {A : Type 0} (P : A → Type 0) (l : List A) (x : A) → All P (l ++ x ∷ []) → P x
All-last P [] x (h, hs) = h
All-last P (y ∷ l) x (h, hs) = All-last P l x hs

module _ (e : Env) where
  -- Only the table of templates has changed, from the rows `l` to the rows `m`.
  pub record Rewritten (w : World e) (m : List ScheduleTemplate) (w' : World e) : Type 0 where
    pub rows : e.templates.rows w'.templates ≡ m
    pub instructions : w'.instructions ≡ w.instructions
    pub clusters : w'.site.clusters ≡ w.site.clusters

  -- A template is entered behind the others, with an id above theirs.
  pub record Entered (r : ScheduleTemplate) (w : World e) (n : ℕ) (w' : World e) : Type 0 where
    pub rewritten : Rewritten w (e.templates.rows w.templates ++ record r { id = n } ∷ []) w'
    pub above : All (λ q. q.id < n) (e.templates.rows w.templates)

  pub create_tmpl-Ends :
      {N : Type 0} (r : ScheduleTemplate) (w : World e)
      → Ends N (Entered r w) (on_templates (Db.create e.templates r) w)
  unfolding Db.create
  create_tmpl-Ends r w = Ends-statement _ _ _ w λ n h.
      let law =
        subst
          (λ q.
            Inserted (λ (r : ScheduleTemplate). r.id) (λ n r. record r { id = n })
              (e.templates.rows w.templates) r q
              (e.templates.rows (e.templates.insert r w.templates).1))
          h (e.templates.insert_law r w.templates) in
      record {
        rewritten = record { rows = law.0; instructions = refl; clusters = refl };
        above = law.2;
      }

  pub record Pair (info : TmpInfo) (name : String) (w : World e) (ids : ℕ × ℕ) (w' : World e)
      : Type 0 where
    pub rewritten :
        Rewritten w
          (e.templates.rows w.templates
            ++ record (expand_tmpl info name) { id = ids.0 }
              ∷ record (shrink_tmpl (expand_tmpl info name) ids.0) { id = ids.1 }
              ∷ [])
          w'
    pub above : All (λ q. q.id < ids.0) (e.templates.rows w.templates)
    pub apart : ids.0 < ids.1

  pub create_expand_tmpl-Ends :
      {N : Type 0} (info : TmpInfo) (name : String) (w : World e)
      → Ends N (Pair info name w) (create_expand_tmpl e info name w)
  unfolding create_expand_tmpl create_shrink_tmpl
  create_expand_tmpl-Ends info name w = Ends-bind _ _ w (create_tmpl-Ends _ w) λ n w' a.
      Ends-bind _ _ w' (create_tmpl-Ends _ w') λ k w'' b. Ends-pure _ w'' (record {
        rewritten = record {
          rows = rw (b.rewritten.rows, a.rewritten.rows, append_assoc);
          instructions = b.rewritten.instructions ∙ a.rewritten.instructions;
          clusters = b.rewritten.clusters ∙ a.rewritten.clusters;
        };
        above = a.above;
        apart =
            All-last (λ q. q.id < k) (e.templates.rows w.templates) _
              (subst (All (λ q. q.id < k)) a.rewritten.rows b.above);
      })

  abbrev pub live : ℕ → ScheduleTemplate → Bool
  live n r = r.id == n && r.is_deleted == 0

  pub update_group-Ends :
      {N : Type 0} (n : ℕ) (group : List ℕ) (rev : ℕ) (w : World e)
      → Ends N
          (λ u w'.
            Rewritten w (map_if (live n) (set_group e group rev) (e.templates.rows w.templates)) w')
          (update_tmpl_instr_group e n group rev w)
  unfolding update_tmpl_instr_group update_tmpl Db.updates single_row
  update_group-Ends n group rev w =
      Ends-bind _ _ w
        (Ends-statement _ _ _ w λ k h.
          let law =
            subst
              (λ q. Updated (e.templates.rows w.templates) (live n) (set_group e group rev) q (
                e.templates.rows
                  (e.templates.update (live n) (set_group e group rev) w.templates).1))
              h (e.templates.update_law (live n) (set_group e group rev) w.templates) in
          record { rows = law.0; instructions = refl; clusters = refl })
        λ k w' a. Ends-if (k == 1) (pure tt) (raise _) w' (Ends-pure tt w' a) (Ends-raise _ w')
