-- ===== src/Prelude/Text/Splitting.antt =====
-- `strings.Split` undoes `strings.Join` where the separator is not in a part.
use Prim.Native.Char.{Char, code}
use Prim.Native.Nat.{ℕ}
use Prim.Native.String.{String}
use mathlib.Core.Path.{◌≡◌, refl, sym, ap, ◌∙◌, subst}
use mathlib.Core.Logic.{◌≢◌, ◌↔◌, inl, inr}
use mathlib.Core.Bool.{false}
use mathlib.Core.List.{List, [], ◌∷◌}
use native.Mathlib.Omega.{arith}
use text.Mathlib.TextLemmas.{append_assoc, append-nil, nil-append, cons-append}
use policy_agent.Prelude.Tests.{eqb, Bool-cases}
use policy_agent.Prelude.Lists.{All}
use policy_agent.Prelude.Text.{◌<>◌, split_char, split_char_from, join_comma}

-- The character with a code does not stand in the text.
abbrev pub Lacks : ℕ → String → Type 0
Lacks sep String.[] = Unit
Lacks sep (String.◌∷◌ c s) = (eqb (code c) sep ≡ false) × Lacks sep s

snoc-append :
    (cur : String) (c : Char) (s : String) → (cur <> String.◌∷◌ c "") <> s ≡ cur <> String.◌∷◌ c s
snoc-append cur c s =
    append_assoc cur (String.◌∷◌ c "") s
    ∙ ap (λ t. cur <> t) (cons-append c "" s ∙ ap (λ t. String.◌∷◌ c t) (nil-append s))

pub split_char_from-append :
    (sep : ℕ) (cur s rest : String)
    → Lacks sep s
    → split_char_from sep cur (s <> rest) ≡ split_char_from sep (cur <> s) rest
unfolding split_char_from
split_char_from-append sep cur String.[] rest h = rw (nil-append, append-nil) refl
split_char_from-append sep cur (String.◌∷◌ c s) rest (h, hs) =
    rw (cons-append, h, split_char_from)
      (split_char_from-append sep (cur <> String.◌∷◌ c "") s rest hs
        ∙ ap (λ t. split_char_from sep t rest) (snoc-append cur c s))

split_char_from-comma :
    (cur rest : String)
    → split_char_from b',' cur ("," <> rest) ≡ cur ∷ split_char_from b',' "" rest
unfolding split_char_from
split_char_from-comma cur rest =
    ap (λ t. split_char_from b',' cur t)
      (cons-append "," "" rest ∙ ap (λ t. String.◌∷◌ "," t) (nil-append rest))

split_char_from-join :
    (cur t : String) (ts : List String)
    → All (λ s. Lacks b',' s) (t ∷ ts)
    → split_char_from b',' cur (join_comma (t ∷ ts)) ≡ (cur <> t) ∷ ts
unfolding join_comma
split_char_from-join cur t [] (h, _) =
    ap (λ s. split_char_from b',' cur s) (sym (append-nil t))
    ∙ split_char_from-append b',' cur t "" h
    ∙ unfold split_char_from in refl
split_char_from-join cur t (u ∷ ts) (h, hs) =
    split_char_from-append b',' cur t ("," <> join_comma (u ∷ ts)) h
    ∙ split_char_from-comma (cur <> t) (join_comma (u ∷ ts))
    ∙ ap (λ xs. (cur <> t) ∷ xs) (split_char_from-join "" u ts hs ∙ ap (λ s. s ∷ ts) (nil-append u))

Lacks-snoc :
    (sep : ℕ) (cur : String) (c : Char)
    → Lacks sep cur
    → eqb (code c) sep ≡ false
    → Lacks sep (cur <> String.◌∷◌ c "")
Lacks-snoc sep String.[] c h e = subst (Lacks sep) (sym (nil-append _)) (e, tt)
Lacks-snoc sep (String.◌∷◌ d cur) c (h, hs) e =
    subst (Lacks sep) (sym (cons-append d cur _)) (h, Lacks-snoc sep cur c hs e)

split_char_from-Lacks :
    (sep : ℕ) (cur s : String) → Lacks sep cur → All (λ t. Lacks sep t) (split_char_from sep cur s)
unfolding split_char_from
split_char_from-Lacks sep cur String.[] h = (h, tt)
split_char_from-Lacks sep cur (String.◌∷◌ c s) h = elim (Bool-cases (eqb (code c) sep)) [
  | inl e ↦ rw (e, split_char_from) (h, split_char_from-Lacks sep "" s tt)
  | inr e ↦ rw (e, split_char_from) (split_char_from-Lacks sep _ s (Lacks-snoc sep cur c h e))
]

split_char_from-ne-nil : (sep : ℕ) (cur s : String) → split_char_from sep cur s ≢ []
unfolding split_char_from
split_char_from-ne-nil sep cur String.[] e = cc
split_char_from-ne-nil sep cur (String.◌∷◌ c s) e =
    ground (arith, split_char_from-ne-nil sep (cur <> String.◌∷◌ c "") s)

-- Splitting at commas gives back the parts that were joined exactly if there is a part and none holds
-- a comma.
pub split_char-join_iff :
    (ts : List String)
    → (split_char b',' (join_comma ts) ≡ ts) ↔ ((ts ≢ []) × All (λ t. Lacks b',' t) ts)
unfolding split_char
split_char-join_iff [] =
    (λ e. absurd (split_char_from-ne-nil b',' "" (join_comma []) e), λ h. absurd (h.0 refl))
split_char-join_iff (t ∷ ts) = (
  λ e. (
    λ n. cc,
    subst (All (λ s. Lacks b',' s)) e (split_char_from-Lacks b',' "" (join_comma (t ∷ ts)) tt),
  ),
  λ h. split_char_from-join "" t ts h.1 ∙ ap (λ s. s ∷ ts) (nil-append t),
)
