-- ===== src/Schedule/Keys.antt =====
-- The keys of the records of instructions, and what the parts of an instruction do to them.
use schedulx.Prelude.{
  ℕ, ◌≡◌, refl, ap, ◌∙◌, List, [], ◌∷◌, ◌++◌, map, map_if, ◌⊎◌, inl, inr, Bool, Option, none, some,
  true, false, if◌then◌else◌, String, ◌==◌,
}
use mathlib.Core.Path.{ap₂}
use schedulx.Effect.{
  Exec, Result, ok, err, Outcome, returns, fails, panics, crashes, call, ◌>>=◌, continue, on_exit,
  run_deferred, exit_with,
}
use schedulx.Effect.Keeps.{
  Keeps, Keeps-zoom, Keeps-bind, Keeps-ignore, Keeps-if, Keeps-raise, Keeps-pure, keeps_rules,
}
use schedulx.Types.{
  InstrRecord, InstrRecStatus, Action, bridgx_expand, bridgx_shrink, node_act_init_base,
  node_act_init_svc, mount_slb, umount_slb, mount_nginx, umount_nginx, node_act_before_download,
  node_act_download, node_act_before_deploy, node_act_deploy, node_act_after_deploy, other_action,
}
use schedulx.Db
use schedulx.Db.Interface.{Updated}
use schedulx.Env.{Env}
use schedulx.World.{Site, World, on_site, on_instructions, on_instr_records}
use schedulx.Instr.{InstrReq}
use schedulx.Instr.Exec.{Answer, update_instr_record, close_record, set_record}
use schedulx.Schedule.Run.{carry, not_nil}

-- The task and the instruction of a record.
abbrev pub key : InstrRecord → ℕ × ℕ
key r = (r.task_id, r.instr_id)

map_if-key :
    (p : InstrRecord → Bool) (f : InstrRecord → InstrRecord) (l : List InstrRecord)
    → ((r : InstrRecord) → key (f r) ≡ key r)
    → map key (map_if p f l) ≡ map key l
map_if-key p f [] h = refl
map_if-key p f (r ∷ l) h = ap₂ ◌∷◌ (if_key (p r)) (map_if-key p f l h)
  where
    if_key : (b : Bool) → key (if b then f r else r) ≡ key r
    if_key true = h r
    if_key false = refl

module _ (e : Env) where
  -- The keys of all records, in the order of their ids.
  abbrev pub keys : World e → List (ℕ × ℕ)
  keys w = map key (e.instr_records.rows w.instr_records)

  module _ (ks : List (ℕ × ℕ)) where
    abbrev pub Keyed : World e → Type 0
    Keyed w = keys w ≡ ks

    pub on_site-Keyed : {A : Type 0} (m : Exec (Site e) A) → Keeps Keyed (on_site m)
    on_site-Keyed m = Keeps-zoom _ _ _ λ w h. h

    pub on_instructions-Keyed :
        {A : Type 0} (m : Exec e.instructions.Store A) → Keeps Keyed (on_instructions {e = e} m)
    on_instructions-Keyed m = Keeps-zoom _ _ _ λ w h. h

    Updated-Keyed :
        (p : InstrRecord → Bool) (f : InstrRecord → InstrRecord) (l l' : List InstrRecord)
        (r : Result ℕ)
        → ((r : InstrRecord) → key (f r) ≡ key r)
        → Updated l p f r l'
        → map key l ≡ ks
        → map key l' ≡ ks
    Updated-Keyed p f l l' (ok n) c u h = ap (map key) u.0 ∙ map_if-key p f l c ∙ h
    Updated-Keyed p f l l' (err x) c u h = ap (map key) u ∙ h

    key-set_record :
        (st : InstrRecStatus) (msg : String) (r : InstrRecord) → key (set_record e st msg r) ≡ key r
    unfolding set_record
    key-set_record st msg r = refl

    updates-Keyed :
        (p : InstrRecord → Bool) (st : InstrRecStatus) (msg : String)
        → Keeps Keyed
            (on_instr_records {e = e} (Db.updates e.instr_records p (set_record e st msg)))
    unfolding Db.updates call
    updates-Keyed p st msg = Keeps-zoom _ _ _ λ w h.
        Updated-Keyed p _ _ _ _ (key-set_record st msg)
          (e.instr_records.update_law p (set_record e st msg) w.instr_records) h

    update_record-Keyed :
        (t k : ℕ) (st : InstrRecStatus) (msg : String)
        → Keeps Keyed (update_instr_record e t k st msg)
    unfolding update_instr_record
    update_record-Keyed t k st msg =
        Keeps-bind _ _ (updates-Keyed _ st msg)
          λ m. Keeps-if (m == 1) _ _ (Keeps-pure tt) (Keeps-raise _)

    pub close_record-Keyed :
        (req : InstrReq) (o : Outcome Answer) → Keeps Keyed (close_record e req o)
    unfolding close_record
    close_record-Keyed req (returns a) = Keeps-ignore _ (update_record-Keyed _ _ _ _)
    close_record-Keyed req (fails x) = Keeps-ignore _ (update_record-Keyed _ _ _ _)
    close_record-Keyed req panics = Keeps-ignore _ (update_record-Keyed _ _ _ _)
    close_record-Keyed req crashes = Keeps-pure tt

    not_nil-Keyed : {A : Type 0} (a : Option A) → Keeps Keyed (not_nil a)
    unfolding not_nil
    not_nil-Keyed none = search keeps_rules
    not_nil-Keyed (some a) = search keeps_rules

    pub carry-Keyed : (act : Action) (a : Answer) → Keeps Keyed (carry e act a)
    unfolding carry
    carry-Keyed bridgx_expand (req, resp) = search (keeps_rules, not_nil-Keyed, on_site-Keyed)
    carry-Keyed node_act_init_base (req, resp) =
        search (keeps_rules, not_nil-Keyed, on_site-Keyed) depth 7
    carry-Keyed node_act_init_svc (req, resp) = search (keeps_rules, not_nil-Keyed)
    carry-Keyed mount_slb (req, resp) = search keeps_rules
    carry-Keyed umount_slb (req, resp) = search (keeps_rules, not_nil-Keyed)
    carry-Keyed bridgx_shrink (req, resp) = search keeps_rules
    carry-Keyed mount_nginx (req, resp) = search keeps_rules
    carry-Keyed umount_nginx (req, resp) = search keeps_rules
    carry-Keyed node_act_before_download (req, resp) = search (keeps_rules, not_nil-Keyed)
    carry-Keyed node_act_download (req, resp) = search keeps_rules
    carry-Keyed node_act_before_deploy (req, resp) = search keeps_rules
    carry-Keyed node_act_deploy (req, resp) = search keeps_rules
    carry-Keyed node_act_after_deploy (req, resp) = search keeps_rules
    carry-Keyed (other_action name) (req, resp) = search keeps_rules

  -- One key more after a return, and at most that one after anything else.
  abbrev pub Logs : {A : Type 0} → List (ℕ × ℕ) → ℕ × ℕ → Outcome A × World e → Type 0
  Logs ks k (returns a, w) = keys w ≡ ks ++ k ∷ []
  Logs ks k (fails x, w) = (keys w ≡ ks) ⊎ (keys w ≡ ks ++ k ∷ [])
  Logs ks k (panics, w) = (keys w ≡ ks) ⊎ (keys w ≡ ks ++ k ∷ [])
  Logs ks k (crashes, w) = (keys w ≡ ks) ⊎ (keys w ≡ ks ++ k ∷ [])

  abbrev pub Perhaps : List (ℕ × ℕ) → ℕ × ℕ → World e → Type 0
  Perhaps ks k w = (keys w ≡ ks) ⊎ (keys w ≡ ks ++ k ∷ [])

  module _ (ks : List (ℕ × ℕ)) (k : ℕ × ℕ) where
    Logs-weaken :
        {A : Type 0} (o : Outcome A) (w : World e) → keys w ≡ ks ++ k ∷ [] → Logs ks k (o, w)
    Logs-weaken (returns a) w h = h
    Logs-weaken (fails x) w h = inr h
    Logs-weaken panics w h = inr h
    Logs-weaken crashes w h = inr h

    pub kept-Perhaps :
        {A : Type 0} (m : Exec (World e) A) (w : World e)
        → ((l : List (ℕ × ℕ)) → Keeps (Keyed l) m)
        → Perhaps ks k w
        → Perhaps ks k (m w).1
    kept-Perhaps m w c (inl h) = inl ((c ks).at w h)
    kept-Perhaps m w c (inr h) = inr ((c _).at w h)

    pub after-Logs :
        {A B : Type 0} (o : Outcome A) (w : World e) (f : A → Exec (World e) B)
        → ((a : A) (l : List (ℕ × ℕ)) → Keeps (Keyed l) (f a))
        → Logs ks k (o, w)
        → Logs ks k (continue o f w)
    after-Logs (returns a) w f c h = let (o', w') = f a w in Logs-weaken o' w' ((c a _).at w h)
    after-Logs (fails x) w f c h = h
    after-Logs panics w f c h = h
    after-Logs crashes w f c h = h

    pub bind-Logs :
        {A B : Type 0} (m : Exec (World e) A) (f : A → Exec (World e) B) (w : World e)
        → ((a : A) (l : List (ℕ × ℕ)) → Keeps (Keyed l) (f a))
        → Logs ks k (m w)
        → Logs ks k ((m >>= f) w)
    unfolding ◌>>=◌
    bind-Logs m f w c h = let (o, w') = m w in after-Logs o w' f c h

    before-Logs :
        {A B : Type 0} (o : Outcome A) (w : World e) (f : A → Exec (World e) B)
        → ((a : A) (w : World e) → keys w ≡ ks → Logs ks k (f a w))
        → keys w ≡ ks
        → Logs ks k (continue o f w)
    before-Logs (returns a) w f c h = c a w h
    before-Logs (fails x) w f c h = inl h
    before-Logs panics w f c h = inl h
    before-Logs crashes w f c h = inl h

    pub then-Logs :
        {A B : Type 0} (m : Exec (World e) A) (f : A → Exec (World e) B) (w : World e)
        → Keeps (Keyed ks) m
        → ((a : A) (w : World e) → keys w ≡ ks → Logs ks k (f a w))
        → keys w ≡ ks
        → Logs ks k ((m >>= f) w)
    unfolding ◌>>=◌
    then-Logs m f w c g h = let (o, w') = m w in before-Logs o w' f g (c.at w h)

    any-Perhaps : {A : Type 0} (o : Outcome A) (w : World e) → Logs ks k (o, w) → Perhaps ks k w
    any-Perhaps (returns a) w h = inr h
    any-Perhaps (fails x) w h = h
    any-Perhaps panics w h = h
    any-Perhaps crashes w h = h

    exit-Logs :
        {A : Type 0} (o : Outcome A) (r : Outcome (Unit {0}) × World e)
        → Logs ks k (o, r.1)
        → Logs ks k (exit_with o r)
    exit-Logs o (returns u, w) h = h
    exit-Logs o (fails x, w) h = h
    exit-Logs o (panics, w) h = any-Perhaps o w h
    exit-Logs o (crashes, w) h = any-Perhaps o w h

    run_deferred-Logs :
        {A : Type 0} (d : Outcome A → Exec (World e) (Unit {0})) (o : Outcome A) (w : World e)
        → ((q : Outcome A) (l : List (ℕ × ℕ)) → Keeps (Keyed l) (d q))
        → Logs ks k (o, w)
        → Logs ks k (run_deferred d o w)
    run_deferred-Logs d (returns a) w c h =
        exit-Logs (returns a) (d (returns a) w) ((c (returns a) _).at w h)
    run_deferred-Logs d (fails x) w c h =
        exit-Logs (fails x) (d (fails x) w) (kept-Perhaps (d (fails x)) w (c (fails x)) h)
    run_deferred-Logs d panics w c h =
        exit-Logs panics (d panics w) (kept-Perhaps (d panics) w (c panics) h)
    run_deferred-Logs d crashes w c h = h

    pub on_exit-Logs :
        {A : Type 0} (d : Outcome A → Exec (World e) (Unit {0})) (m : Exec (World e) A)
        (w : World e)
        → ((q : Outcome A) (l : List (ℕ × ℕ)) → Keeps (Keyed l) (d q))
        → Logs ks k (m w)
        → Logs ks k (on_exit d m w)
    unfolding on_exit
    on_exit-Logs d m w c h = let (o, w') = m w in run_deferred-Logs d o w' c h
