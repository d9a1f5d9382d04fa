-- ===== src/Prelude/Maps.antt =====
-- A Go map with string keys, as its entries in the order in which a loop visits them.
use Prim.Native.String.{String}
use mathlib.Core.Path.{◌≡◌, refl}
use mathlib.Core.Bool.{Bool, true, false}
use mathlib.Core.Option.{Option, none, some}
use mathlib.Core.List.{List, [], ◌∷◌}
use native.Mathlib.Omega.{arith}
use text.Mathlib.Text.{◌==◌}
use text.Mathlib.TextEquality.{eq_iff}
use policy_agent.Prelude.Tests.{if◌then◌else◌}

abbrev pub Map {ℓ} : Type ℓ → Type ℓ
Map V = List (String × V)

-- `v, ok := m[key]`.
unfoldable pub lookup {ℓ} : {V : Type ℓ} → String → Map V → Option V
lookup key [] = none
lookup key ((name, value) ∷ entries) = if name == key then some value else lookup key entries

-- `delete(m, key)`.
unfoldable pub delete {ℓ} : {V : Type ℓ} → String → Map V → Map V
delete key [] = []
delete key ((name, value) ∷ entries) =
    let rest = delete key entries in if name == key then rest else (name, value) ∷ rest

-- `m[key] = value`: an entry of that key is written over in its place.
unfoldable pub insert {ℓ} : {V : Type ℓ} → String → V → Map V → Map V
insert key value [] = (key, value) ∷ []
insert key value ((name, old) ∷ entries) =
    let later = insert key value entries in
    if name == key then (name, value) ∷ entries else (name, old) ∷ later

-- What is read after a write.
pub lookup-insert {ℓ} :
    {V : Type ℓ} (written asked : String) (value : V) (m : Map V)
    → lookup asked (insert written value m)
      ≡ (if written == asked then some value else lookup asked m)
unfolding lookup insert
lookup-insert written asked value [] = refl
lookup-insert written asked value ((name, old) ∷ entries) =
    let rest = lookup-insert written asked value entries in
    ground (arith, rest, eq_iff name asked, eq_iff name written, eq_iff written asked)

-- What is read after a deletion.
pub lookup-delete {ℓ} :
    {V : Type ℓ} (deleted asked : String) (m : Map V)
    → lookup asked (delete deleted m) ≡ (if deleted == asked then none else lookup asked m)
unfolding lookup delete
lookup-delete deleted asked [] = ground arith
lookup-delete deleted asked ((name, old) ∷ entries) =
    let rest = lookup-delete deleted asked entries in
    ground (arith, rest, eq_iff name asked, eq_iff name deleted, eq_iff deleted asked)

-- The value that Go reads at a key of a `map[string]string`, the empty text where it is missing.
abbrev pub text_at : String → Map String → String
text_at k m = elim (lookup k m) [ none ↦ "" | some v ↦ v ]

-- `_, ok := m[k]`.
unfoldable pub has_key {ℓ} : {V : Type ℓ} → String → Map V → Bool
unfolding lookup
has_key k m = elim (lookup k m) [ none ↦ false | some _ ↦ true ]
