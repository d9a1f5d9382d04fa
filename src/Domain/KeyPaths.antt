-- ===== src/Domain/KeyPaths.antt =====
-- How `Mutate` reads the key of an occurrence as a path (pkg/policy-core/domain/mutation.go).
use Prim.Native.Char.{Char, code}
use text.Mathlib.TextLemmas.{append-nil, nil-append, cons-append}
use policy_agent.Prelude.{
  ℕ, ◌≤◌, String, Bool, true, false, List, [], ◌∷◌, none, some, map, ◌≡◌, ◌≢◌, refl, sym, subst, ap,
  ◌∙◌, ◌⊎◌, inl, inr, All, Lacks, split_char, split_char_from, split_char_from-append, eqb, eq_iff,
  ◌==◌, ◌<>◌, arith, Bool-cases,
}
use policy_agent.Domain.Mutation.{
  is_digit, is_alphanumeric, span, after, find_submatch, parse_parts, parse_key_path,
}

-- Every character of a text has a property.
abbrev pub Each : (Char → Type 0) → String → Type 0
Each P String.[] = Unit {0}
Each P (String.◌∷◌ c s) = P c × Each P s

abbrev pub IsDigit : Char → Type 0
IsDigit c = (b'0' ≤ code c) × (code c ≤ b'9')

abbrev pub IsAlphanumeric : Char → Type 0
IsAlphanumeric c =
    IsDigit c ⊎ ((b'a' ≤ code c) × (code c ≤ b'z')) ⊎ ((b'A' ≤ code c) × (code c ≤ b'Z'))

-- A step of a path: a field, or an item of a list in a field.
pub data Step : Type 0 where
  field : String → Step
  item : String → String → Step

-- A field has neither a dot nor a bracket in its name; the name of a list is alphanumeric and its
-- index has digits only, and neither is empty.
abbrev pub IsStep : Step → Type 0
IsStep (field name) = Lacks b'.' name × Lacks b'[' name
IsStep (item name index) =
    (name ≢ "") × (index ≢ "") × Each IsAlphanumeric name × Each IsDigit index

abbrev pub write_step : Step → String
write_step (field name) = name
write_step (item name index) = name <> String.◌∷◌ "[" (index <> String.◌∷◌ "]" "")

abbrev pub write_path : Step → List Step → String
write_path s [] = write_step s
write_path s (t ∷ ts) = write_step s <> String.◌∷◌ "." (write_path t ts)

abbrev pub names_of : List Step → List String
names_of [] = []
names_of (field name ∷ ss) = name ∷ names_of ss
names_of (item name index ∷ ss) = name ∷ index ∷ names_of ss

span-append :
    (p : Char → Bool) (s rest : String)
    → Each (λ c. p c ≡ true) s
    → span p (s <> rest) ≡ (s <> (span p rest).0, (span p rest).1)
unfolding span
span-append p String.[] rest h = rw (nil-append rest, nil-append (span p rest).0) refl
span-append p (String.◌∷◌ c s) rest (h, hs) =
    rw (cons-append c s rest, cons-append c s (span p rest).0, span, h, span-append p s rest hs)
      refl

is_digit-true : (c : Char) → IsDigit c → is_digit c ≡ true
unfolding is_digit
is_digit-true c h = ground arith

is_alphanumeric-true : (c : Char) → IsAlphanumeric c → is_alphanumeric c ≡ true
unfolding is_alphanumeric is_digit
is_alphanumeric-true c h = ground arith

Each-map : (P Q : Char → Type 0) (s : String) → ((c : Char) → P c → Q c) → Each P s → Each Q s
Each-map P Q String.[] f h = tt
Each-map P Q (String.◌∷◌ c s) f (h, hs) = (f c h, Each-map P Q s f hs)

span-name :
    (name rest : String)
    → Each IsAlphanumeric name
    → span is_alphanumeric (name <> String.◌∷◌ "[" rest) ≡ (name, String.◌∷◌ "[" rest)
unfolding span is_alphanumeric is_digit
span-name name rest h =
    span-append is_alphanumeric name (String.◌∷◌ "[" rest)
      (Each-map IsAlphanumeric _ name is_alphanumeric-true h)
    ∙ ap (λ t. (t, String.◌∷◌ "[" rest)) (append-nil name)

span-index :
    (index : String)
    → Each IsDigit index
    → span is_digit (index <> String.◌∷◌ "]" "") ≡ (index, String.◌∷◌ "]" "")
unfolding span is_digit
span-index index h =
    span-append is_digit index (String.◌∷◌ "]" "") (Each-map IsDigit _ index is_digit-true h)
    ∙ ap (λ t. (t, String.◌∷◌ "]" "")) (append-nil index)

is_empty_text : (s : String) → s ≢ "" → (s == "") ≡ false
is_empty_text s n = elim (Bool-cases (s == "")) [
  | inl e ↦ absurd (n ((eq_iff s "").0 e))
  | inr e ↦ e
]

find_submatch-span :
    (part name inside index end : String)
    → span is_alphanumeric part ≡ (name, String.◌∷◌ "[" inside)
    → span is_digit inside ≡ (index, String.◌∷◌ "]" end)
    → name ≢ ""
    → index ≢ ""
    → find_submatch part ≡ some (name, index)
unfolding find_submatch after
find_submatch-span part name inside index end at within n i =
    let same : (span is_alphanumeric part).0 ≡ name = ap (λ (x : String × String). x.0) at in
    let number : (span is_digit inside).0 ≡ index = ap (λ (x : String × String). x.0) within in
    rw (find_submatch, at, within, same, number, is_empty_text name n, is_empty_text index i) refl

find_submatch-item :
    (name index : String)
    → IsStep (item name index)
    → find_submatch (write_step (item name index)) ≡ some (name, index)
find_submatch-item name index (n, i, ns, is_) =
    find_submatch-span _ name (index <> String.◌∷◌ "]" "") index "" (span-name name _ ns)
      (span-index index is_) n i

span-Lacks : (p : Char → Bool) (sep : ℕ) (s : String) → Lacks sep s → Lacks sep (span p s).1
unfolding span
span-Lacks p sep String.[] h = tt
span-Lacks p sep (String.◌∷◌ c s) (h, hs) = elim (Bool-cases (p c)) [
  | inl e ↦ rw (span, e) (span-Lacks p sep s hs)
  | inr e ↦ rw (span, e) (h, hs)
]

after-Lacks : (sep : ℕ) (s : String) → Lacks sep s → after sep s ≡ none
unfolding after
after-Lacks sep String.[] h = refl
after-Lacks sep (String.◌∷◌ c s) (h, hs) = rw h refl

find_submatch-field : (name : String) → Lacks b'[' name → find_submatch name ≡ none
unfolding find_submatch
find_submatch-field name h =
    rw (find_submatch, after-Lacks b'[' _ (span-Lacks is_alphanumeric b'[' name h)) refl

Lacks-append : (sep : ℕ) (s t : String) → Lacks sep s → Lacks sep t → Lacks sep (s <> t)
Lacks-append sep String.[] t h k = subst (Lacks sep) (sym (nil-append t)) k
Lacks-append sep (String.◌∷◌ c s) t (h, hs) k =
    subst (Lacks sep) (sym (cons-append c s t)) (h, Lacks-append sep s t hs k)

Each-Lacks :
    (P : Char → Type 0) (sep : ℕ) (s : String)
    → ((c : Char) → P c → eqb (code c) sep ≡ false)
    → Each P s
    → Lacks sep s
Each-Lacks P sep String.[] f h = tt
Each-Lacks P sep (String.◌∷◌ c s) f (h, hs) = (f c h, Each-Lacks P sep s f hs)

Lacks-write_step : (s : Step) → IsStep s → Lacks b'.' (write_step s)
Lacks-write_step (field name) h = h.0
Lacks-write_step (item name index) (n, i, ns, is_) =
    Lacks-append b'.' name _ (Each-Lacks IsAlphanumeric b'.' name (λ c h. ground arith) ns) (
      refl,
      Lacks-append b'.' index _ (Each-Lacks IsDigit b'.' index (λ c h. ground arith) is_)
          (refl, tt),
    )

split_char_from-write_path :
    (cur : String) (s : Step) (ss : List Step)
    → All IsStep (s ∷ ss)
    → split_char_from b'.' cur (write_path s ss) ≡ (cur <> write_step s) ∷ map write_step ss
unfolding split_char_from
split_char_from-write_path cur s [] (h, _) =
    ap (λ t. split_char_from b'.' cur t) (sym (append-nil (write_step s)))
    ∙ split_char_from-append b'.' cur (write_step s) "" (Lacks-write_step s h)
split_char_from-write_path cur s (t ∷ ts) (h, hs) =
    split_char_from-append b'.' cur (write_step s) (String.◌∷◌ "." (write_path t ts))
      (Lacks-write_step s h)
    ∙ ap (λ xs. (cur <> write_step s) ∷ xs)
        (split_char_from-write_path "" t ts hs
          ∙ ap (λ u. u ∷ map write_step ts) (nil-append (write_step t)))

parse_parts-write_step :
    (ss : List Step) → All IsStep ss → parse_parts (map write_step ss) ≡ names_of ss
unfolding parse_parts
parse_parts-write_step [] h = refl
parse_parts-write_step (field name ∷ ss) (h, hs) =
    rw (parse_parts, find_submatch-field name h.1, parse_parts-write_step ss hs) refl
parse_parts-write_step (item name index ∷ ss) (h, hs) =
    rw (parse_parts, find_submatch-item name index h, parse_parts-write_step ss hs) refl

-- A key that is written as steps between dots, each the name of a field or the name of a list with
-- an index in brackets, is read as the names and the indices of the steps in their order, where no
-- name of a field has a dot or a bracket, the names of lists are alphanumeric, the indices are
-- numerals, and neither of these is empty.
pub parse_key_path-write_path :
    (s : Step) (ss : List Step)
    → All IsStep (s ∷ ss)
    → parse_key_path (write_path s ss) ≡ names_of (s ∷ ss)
unfolding parse_key_path split_char
parse_key_path-write_path s ss h =
    ap parse_parts (
      split_char_from-write_path "" s ss h
      ∙ ap (λ u. u ∷ map write_step ss) (nil-append (write_step s)))
    ∙ parse_parts-write_step (s ∷ ss) h
