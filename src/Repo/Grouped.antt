-- ===== src/Repo/Grouped.antt =====
-- The text of a group of instructions, as `GetExpandList` of repository/scheduletemplaterepo.go takes it
-- apart.
use Prim.Native.Char.{code}
use schedulx.Prelude.{◌==◌, false, String, List, [], ◌∷◌, All, ◌≡◌, refl, ap, ◌∙◌}
use schedulx.Repo.Expands.{is_bracket, trim_start, trim_end, only_brackets, split, instr_ids}

abbrev pub append : String → String → String
append String.[] t = t
append (String.◌∷◌ c s) t = String.◌∷◌ c (append s t)

-- Texts with a comma between two that follow each other.
abbrev pub joined : String → List String → String
joined s [] = s
joined s (t ∷ l) = append s (append "," (joined t l))

-- A text without a bracket and without a comma.
abbrev pub Plain : String → Type 0
Plain String.[] = Unit
Plain (String.◌∷◌ c s) = (is_bracket (code c) ≡ false) × ((code c == 44) ≡ false) × Plain s

-- A text without a bracket.
abbrev Inner : String → Type 0
Inner String.[] = Unit
Inner (String.◌∷◌ c s) = (is_bracket (code c) ≡ false) × Inner s

append-Inner : (s t : String) → Plain s → Inner t → Inner (append s t)
append-Inner String.[] t h k = k
append-Inner (String.◌∷◌ c s) t (a, b, h) k = (a, append-Inner s t h k)

Plain-Inner : (s : String) → Plain s → Inner s
Plain-Inner String.[] h = tt
Plain-Inner (String.◌∷◌ c s) (a, b, h) = (a, Plain-Inner s h)

joined-Inner : (s : String) (l : List String) → Plain s → All Plain l → Inner (joined s l)
unfolding is_bracket
joined-Inner s [] h k = Plain-Inner s h
joined-Inner s (t ∷ l) h (a, k) = append-Inner s _ h (refl, joined-Inner t l a k)

trim_end-append : (s : String) → Inner s → trim_end (append s "]") ≡ s
unfolding trim_end only_brackets is_bracket
trim_end-append String.[] h = refl
trim_end-append (String.◌∷◌ c s) (a, h) = rw (a, trim_end-append s h) refl

trim_end-trim_start : (s : String) → Inner s → trim_end (trim_start (append s "]")) ≡ s
unfolding trim_end trim_start only_brackets is_bracket
trim_end-trim_start String.[] h = refl
trim_end-trim_start (String.◌∷◌ c s) (a, h) = rw (a, a, trim_end-append s h) refl

split-append : (s r : String) → Plain s → split (append s (append "," r)) ≡ s ∷ split r
unfolding split
split-append String.[] r h = refl
split-append (String.◌∷◌ c s) r (a, b, h) = rw (b, split-append s r h) refl

split-Plain : (s : String) → Plain s → split s ≡ s ∷ []
unfolding split
split-Plain String.[] h = refl
split-Plain (String.◌∷◌ c s) (a, b, h) = rw (b, split-Plain s h) refl

split-joined : (s : String) (l : List String) → Plain s → All Plain l → split (joined s l) ≡ s ∷ l
split-joined s [] h k = split-Plain s h
split-joined s (t ∷ l) h (a, k) = split-append s _ h ∙ ap (s ∷◌) (split-joined t l a k)

-- Texts without a comma and a bracket, at least one, are what `GetExpandList` reads from the text that
-- has them between brackets, with commas.
pub instr_ids-joined :
    (s : String) (l : List String)
    → Plain s
    → All Plain l
    → instr_ids (append "[" (append (joined s l) "]")) ≡ s ∷ l
unfolding instr_ids trim_start is_bracket
instr_ids-joined s l h k =
    ap split (trim_end-trim_start (joined s l) (joined-Inner s l h k)) ∙ split-joined s l h k
