-- ===== src/Prelude/Text.antt =====
-- Text as the program builds it: `fmt.Sprintf` with `%s` and `%d`, `strings.ToLower`, `strings.Join`
-- and `strings.Split`.
pub mod Splitting
use Prim.Native.Char.{Char, code}
use Prim.Native.Nat.{ℕ, zero, suc, ◌-◌, ◌/◌, ◌%◌}
use Prim.Native.String
use Prim.Native.String.{String}
use mathlib.Core.Path.{◌≡◌, refl}
use mathlib.Core.Option.{none, some}
use mathlib.Core.List.{List, [], ◌∷◌}
use text.Mathlib.Text.{starts_with}
use policy_agent.Prelude.Tests.{if◌then◌else◌, ltb, eqb}
use policy_agent.Prelude.Lists.{get_elem?}

infixr 66 ◌<>◌
abbrev pub ◌<>◌ : String → String → String
s <> t = String.◌++◌ s t

abbrev digit_texts : List String
digit_texts =
    "0" ∷ "1" ∷ "2" ∷ "3" ∷ "4" ∷ "5" ∷ "6" ∷ "7" ∷ "8" ∷ "9" ∷ "a" ∷ "b" ∷ "c" ∷ "d" ∷ "e" ∷ "f"
    ∷ []

digit : ℕ → String
digit d = elim (get_elem? digit_texts d) [ none ↦ "" | some t ↦ t ]

-- Fuel: a number has fewer digits than its successor in any base from two, so `suc n` rounds are
-- enough.
digits : ℕ → ℕ → ℕ → String
unfolding digit
digits base zero n = ""
digits base (suc f) n =
    let more = digits base f (n / base) in if ltb n base then digit n else more <> digit (n % base)

-- `%d`.
unfoldable pub decimal : ℕ → String
unfolding digits
decimal n = digits 10 (suc n) n

-- `%x`.
unfoldable pub hex : ℕ → String
unfolding digits
hex n = digits 16 (suc n) n

-- The character at the place in the second text where the first text holds `c`.
translate : String → String → Char → Char
translate String.[] to c = c
translate (String.◌∷◌ a from) String.[] c = c
translate (String.◌∷◌ a from) (String.◌∷◌ b to) c =
    if eqb (code a) (code c) then b else translate from to c

-- `strings.ToLower` on ASCII text, the only text that a Kubernetes kind holds.
unfoldable pub to_lower : String → String
unfolding translate
to_lower String.[] = ""
to_lower (String.◌∷◌ c s) =
    String.◌∷◌ (translate "ABCDEFGHIJKLMNOPQRSTUVWXYZ" "abcdefghijklmnopqrstuvwxyz" c) (to_lower s)

-- `strings.Join(parts, ",")`.
unfoldable pub join_comma : List String → String
join_comma [] = ""
join_comma (s ∷ []) = s
join_comma (s ∷ t ∷ r) = s <> "," <> join_comma (t ∷ r)

unfoldable pub split_char_from : ℕ → String → String → List String
split_char_from sep cur String.[] = cur ∷ []
split_char_from sep cur (String.◌∷◌ c s) =
    let closed = split_char_from sep "" s in
    let longer = split_char_from sep (cur <> String.◌∷◌ c "") s in
    if eqb (code c) sep then cur ∷ closed else longer

-- `strings.Split(s, sep)` at a separator of one character, given by its code.
unfoldable pub split_char : ℕ → String → List String
unfolding split_char_from
split_char sep s = split_char_from sep "" s

-- `skip` counts the characters of a separator that is being passed over.
split_text_from : String → ℕ → ℕ → String → String → List String
split_text_from sep width skip cur String.[] = cur ∷ []
split_text_from sep width (suc k) cur (String.◌∷◌ c s) = split_text_from sep width k cur s
split_text_from sep width zero cur (String.◌∷◌ c s) =
    let closed = split_text_from sep width (width - 1) "" s in
    let longer = split_text_from sep width zero (cur <> String.◌∷◌ c "") s in
    if starts_with (String.◌∷◌ c s) sep then cur ∷ closed else longer

-- `strings.Split(s, sep)` at a separator that is not empty.
unfoldable pub split_text : String → String → List String
unfolding split_text_from
split_text sep s = split_text_from sep (String.count sep) zero "" s

text_tests :
    (decimal 1207 ≡ "1207")
    × (hex 48879 ≡ "beef")
    × (to_lower "ReplicaSet2" ≡ "replicaset2")
    × (join_comma ("a" ∷ "b" ∷ []) ≡ "a,b")
    × (split_char b',' "a,,b" ≡ "a" ∷ "" ∷ "b" ∷ [])
    × (split_text "package " "package a.b" ≡ "" ∷ "a.b" ∷ [])
unfolding decimal hex to_lower join_comma split_char split_text
text_tests = (refl, refl, refl, refl, refl, refl)
