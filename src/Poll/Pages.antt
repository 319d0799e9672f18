-- ===== src/Poll/Pages.antt =====
-- The loop over the pages of service/bridgxsvc.go and service/noteactsvc.go, with a service that
-- answers from one list.
use std.Path.{subst}
use schedulx.Prelude.{
  ℕ, zero, suc, ◌+◌, ◌-◌, ◌*◌, ◌<◌, ◌≤◌, ◌≡◌, leb, refl, ap, ◌∙◌, sym, List, [], ◌∷◌, ◌++◌, take,
  drop, length, arith, ◌==◌, ◌&&◌, Bool, true, false, if◌then◌else◌,
}
use schedulx.Effect.{Exec, returns, ◌>>=◌, pure}
use schedulx.Types.{InstanceInfo}
use schedulx.Poll.{collect, page_done}

-- A page of `size` of a list.
abbrev pub page_of : {A : Type 0} → List A → ℕ → ℕ → List A
page_of l size page = take size (drop ((page - 1) * size) l)

module _ {A : Type 0} where
  take_path : (m n : ℕ) → m ≡ n → (l : List A) → take m l ≡ take n l
  take_path m n h l = ap (λ k. take k l) h

  take_nil : (n : ℕ) → ◌≡◌ {A = List A} (take n []) []
  take_nil zero = refl
  take_nil (suc n) = refl

  take-drop : (n k : ℕ) (l : List A) → take n l ++ take k (drop n l) ≡ take (n + k) l
  take-drop zero k l = take_path _ _ (omega arith) l
  take-drop (suc n) zero [] = sym (take_nil (suc n + 0))
  take-drop (suc n) (suc k) [] = sym (take_nil (suc n + suc k))
  take-drop (suc n) k (x ∷ l) =
      ap (x ∷◌) (take-drop n k l) ∙ take_path (suc (n + k)) (suc n + k) (omega arith) (x ∷ l)

  cut : (m : ℕ) (l : List A) → leb (length l) (length (take m l)) ≡ true → take m l ≡ l
  cut zero [] h = refl
  cut zero (x ∷ l) h = grind arith
  cut (suc m) [] h = refl
  cut (suc m) (x ∷ l) h = ap (x ∷◌) (cut m l (ground arith))

  uncut : (m : ℕ) (l : List A) → leb (length l) (length (take m l)) ≡ false → m < length l
  uncut zero [] h = grind arith
  uncut zero (x ∷ l) h = omega arith
  uncut (suc m) [] h = grind arith
  uncut (suc m) (x ∷ l) h = grind (arith, uncut m l (ground arith))

  take_nonempty : (n : ℕ) (l : List A) → 0 < n → 0 < length l → (length (take n l) == 0) ≡ false
  take_nonempty zero l h k = grind arith
  take_nonempty (suc n) [] h k = grind arith
  take_nonempty (suc n) (x ∷ l) h k = ground arith

module _ {S : Type 0} (all : List InstanceInfo) (size : ℕ)
    (fetch : ℕ → Exec S (ℕ × List InstanceInfo)) where
  -- Whatever the state, the service answers with the size of the list and the page that is asked for.
  abbrev pub Serves : Type 0
  Serves = (page : ℕ) (s : S) → (fetch page s).0 ≡ returns (length all, page_of all size page)

  after_page : (k : ℕ) → take (k * size) all ++ page_of all size (suc k) ≡ take (suc k * size) all
  after_page k =
      ap (take (k * size) all ++◌) (ap (λ n. take size (drop (n * size) all)) (same k))
      ∙ take-drop (k * size) size all
      ∙ take_path (k * size + size) (suc k * size) (grind arith) all
    where
      same : (k : ℕ) → suc k - 1 ≡ k
      same k = omega arith

  page_test :
      (k : ℕ)
      → 0 < size
      → 0 < length all
      → (suc k == 1 && length (page_of all size (suc k)) == 0) ≡ false
  page_test zero h c =
      ap (λ n. length (take size (drop n all)) == 0) (first_offset size)
      ∙ take_nonempty size all h c
    where
      first_offset : (n : ℕ) → (1 - 1) * n ≡ 0
      first_offset n = omega arith
  page_test (suc k) h c = ground arith

  step :
      (next : List InstanceInfo → Exec S (List InstanceInfo)) (k : ℕ) (s : S)
      → 0 < size
      → 0 < length all
      → page_done fetch next (suc k) (take (k * size) all) (length all, page_of all size (suc k)) s
        ≡ (if leb (length all) (length (take (suc k * size) all))
              then pure (take (suc k * size) all)
              else next (take (suc k * size) all))
            s
  unfolding page_done
  step next k s h c = rw (page_test k h c, after_page k) refl

  decided :
      (T : List InstanceInfo) (next : List InstanceInfo → Exec S (List InstanceInfo)) (b : Bool)
      (s : S)
      → (b ≡ true → T ≡ all)
      → (b ≡ false → (next T s).0 ≡ returns all)
      → ((if b then pure T else next T) s).0 ≡ returns all
  unfolding pure
  decided T next true s h ih = ap returns (h refl)
  decided T next false s h ih = ih refl

  module _ (serves : Serves) (h : 0 < size) (c : 0 < length all) where
    collect_from :
        (fuel k : ℕ) (s : S)
        → length all ≤ (k + fuel) * size
        → k * size < length all
        → (collect fetch fuel (suc k) (take (k * size) all) s).0 ≡ returns all
    unfolding collect ◌>>=◌
    collect_from zero k s b o = grind arith
    collect_from (suc fuel) k s b o =
        let s' = (fetch (suc k) s).1 in
        let next = collect fetch fuel (suc k + 1) in
        let T = take (suc k * size) all in
        rw (serves (suc k) s, step next k s' h c)
          (decided T next (leb (length all) (length T)) s' (cut (suc k * size) all) λ t.
            subst (λ p. (collect fetch fuel p T s').0 ≡ returns all) (next_page k)
              (collect_from fuel (suc k) s' (grind arith) (uncut (suc k * size) all t)))
      where
        next_page : (k : ℕ) → suc (suc k) ≡ suc k + 1
        next_page k = omega arith

    -- Where a service answers for every page, in every state, with the length of one list and that
    -- page of it, and neither the list nor a page is empty, the loop over the pages returns the whole
    -- list in its order, if the fuel is enough for its pages.
    pub collect_complete :
        (fuel : ℕ) (s : S) → length all ≤ fuel * size → (collect fetch fuel 1 [] s).0 ≡ returns all
    collect_complete fuel s b =
        subst (λ m. (collect fetch fuel 1 (take m all) s).0 ≡ returns all) (none_yet size)
          (collect_from fuel 0 s (grind arith) (grind arith))
      where
        none_yet : (n : ℕ) → 0 * n ≡ 0
        none_yet n = omega arith
