-- ===== src/Tests/Json.antt =====
-- Texts that stand for structures: a character comes behind a dot, and a text ends with a semicolon.
use schedulx.Types.{RelationTaskId}
use Prim.Native.Char.{code, Char}
use Prim.Native.String.compare
use schedulx.Prelude.{
  ℕ, suc, zero, ◌≡◌, refl, ap, ◌==◌, Bool, true, false, String, List, [], ◌∷◌, map, if◌then◌else◌,
}
use schedulx.Effect.{Result, ok, err, new_error}
use schedulx.Env.{Codec, TmplAttrs, DownloadExec}
use schedulx.Template.Shown.{RoundTrips}

abbrev quoted : String → String → String
quoted String.[] k = String.◌∷◌ ";" k
quoted (String.◌∷◌ c s) k = String.◌∷◌ "." (String.◌∷◌ c (quoted s k))

abbrev body : List String → String
body [] = ""
body (s ∷ l) = quoted s (body l)

abbrev push : Char → List String → List String
push c [] = []
push c (s ∷ l) = String.◌∷◌ c s ∷ l

-- Between characters, or right behind a dot.
abbrev parse : Bool → String → List String
parse b String.[] = []
parse true (String.◌∷◌ c s) = if code c == 46 then parse false s else "" ∷ parse true s
parse false (String.◌∷◌ c s) = push c (parse true s)

parse-quoted : (s k : String) → parse true (quoted s k) ≡ s ∷ parse true k
parse-quoted String.[] k = refl
parse-quoted (String.◌∷◌ c s) k = ap (push c) (parse-quoted s k)

parse-body : (l : List String) → parse true (body l) ≡ l
parse-body [] = refl
parse-body (s ∷ l) = rw (parse-quoted s (body l), parse-body l)

abbrev unwrap : {A : Type 0} → (List String → Result A) → String → Result A
unwrap read String.[] = err (new_error "unexpected end of JSON input")
unwrap read (String.◌∷◌ c s) = read (parse true s)

-- A structure by the list of its texts; no structure is the empty text.
abbrev coded : {A : Type 0} → (A → List String) → (List String → Result A) → Codec A
coded texts read = record {
  encode = λ a. String.◌∷◌ "[" (body (texts a));
  decode = λ s. unwrap read s;
}

coded-RoundTrips :
    {A : Type 0} (texts : A → List String) (read : List String → Result A)
    → ((a : A) → read (texts a) ≡ ok a)
    → RoundTrips (coded texts read)
coded-RoundTrips texts read h a =
    (rw (parse-body (texts a)) (h a), rw (compare.cons-nil "[" (body (texts a))) refl)

abbrev dots : ℕ → String
dots zero = ""
dots (suc n) = String.◌∷◌ "." (dots n)

abbrev count : String → ℕ
count String.[] = 0
count (String.◌∷◌ c s) = suc (count s)

count-dots : (n : ℕ) → count (dots n) ≡ n
count-dots zero = refl
count-dots (suc n) = ap suc (count-dots n)

count-dots_all : (l : List ℕ) → map count (map dots l) ≡ l
count-dots_all [] = refl
count-dots_all (n ∷ l) = rw (count-dots n, count-dots_all l)

abbrev pub texts_json : Codec (List String)
texts_json = coded (λ l. l) ok

pub texts_json-RoundTrips : RoundTrips texts_json
texts_json-RoundTrips = coded-RoundTrips _ _ λ l. refl

abbrev pub ids_json : Codec (List ℕ)
ids_json = coded (map dots) (λ l. ok (map count l))

pub ids_json-RoundTrips : RoundTrips ids_json
ids_json-RoundTrips =
    coded-RoundTrips (map dots) (λ l. ok (map count l)) λ l. ap ok (count-dots_all l)

abbrev read_attrs : List String → Result TmplAttrs
read_attrs (a ∷ b ∷ c ∷ d ∷ []) =
    ok (record { repo_type = a; repo_path = b; repo_user = c; repo_password = d })
read_attrs _ = err (new_error "unexpected end of JSON input")

abbrev attrs_texts : TmplAttrs → List String
attrs_texts a = a.repo_type ∷ a.repo_path ∷ a.repo_user ∷ a.repo_password ∷ []

abbrev pub attrs_json : Codec TmplAttrs
attrs_json = coded attrs_texts read_attrs

pub attrs_json-RoundTrips : RoundTrips attrs_json
attrs_json-RoundTrips = coded-RoundTrips attrs_texts read_attrs λ a. refl

abbrev read_download : List String → Result DownloadExec
read_download (a ∷ b ∷ []) = ok (record { deploy_file_path = a; deploy_file_name = b })
read_download _ = err (new_error "unexpected end of JSON input")

abbrev download_texts : DownloadExec → List String
download_texts a = a.deploy_file_path ∷ a.deploy_file_name ∷ []

abbrev pub download_json : Codec DownloadExec
download_json = coded download_texts read_download

pub download_json-RoundTrips : RoundTrips download_json
download_json-RoundTrips = coded-RoundTrips download_texts read_download λ a. refl

abbrev relation_texts : RelationTaskId → List String
relation_texts p = dots p.node_act_task_id ∷ dots p.bridgx_task_id ∷ []

abbrev read_relation : List String → Result RelationTaskId
read_relation (a ∷ b ∷ []) = ok (record { node_act_task_id = count a; bridgx_task_id = count b })
read_relation _ = err (new_error "unexpected end of JSON input")

abbrev pub relation_json : Codec RelationTaskId
relation_json = coded relation_texts read_relation

pub relation_json-RoundTrips : RoundTrips relation_json
relation_json-RoundTrips =
    coded-RoundTrips relation_texts read_relation
      λ p. rw (count-dots p.node_act_task_id, count-dots p.bridgx_task_id) refl
