-- ===== src/Domain/Mutation.antt =====
-- pkg/policy-core/domain/mutation.go: recommended values are written into a resource.
use Prim.Native.Char.{Char, code}
use policy_agent.Prelude.{
  ℕ, ◌+◌, ◌-◌, ◌≡◌, refl, String, Bool, true, false, ◌&&◌, ◌||◌, List, [], ◌∷◌, Option, none, some,
  Result, ok, err, ◌>>=◌, map_err, Map, insert, split_char, if◌then◌else◌, ltb, eqb, ◌<>◌, ◌==◌,
}
use policy_agent.Value.{Value, null, float, number}
use policy_agent.Domain.{Entity, Occurrence, MutationResult}

-- The yaml document library. A lookup may create nodes even when it fails, and an encoding that
-- fails may leave its mark, so each answers with the document as well.
pub record Yaml : Type 1 where
  pub Node : Type 0
  pub Cursor : Type 0
  pub unmarshal : String → Result Node
  pub lookup_create : List String → Node → Result (Option Cursor) × Node
  pub encode : Cursor → Value → Node → Result (Unit {0}) × Node
  pub get_labels : Node → Map String
  pub set_labels : Map String → Node → Node
  pub marshal_json : Node → Result String

-- `encoding/json`: the encoding of a manifest, and `json.Number.Float64`.
pub record Json : Type 0 where
  pub marshal : Map Value → Result String
  pub float64 : String → Result ℕ

abbrev pub mutated_label : String
mutated_label = "pac.weave.works/mutated"

-- The regular expression `^([a-zA-Z0-9]+)\[([0-9]+)\]` of a key with an index.
unfoldable pub is_digit : Char → Bool
is_digit c = ltb (code c) (b'9' + 1) && ltb (b'0' - 1) (code c)

unfoldable pub is_alphanumeric : Char → Bool
unfolding is_digit
is_alphanumeric c =
    is_digit c
    || (ltb (b'a' - 1) (code c) && ltb (code c) (b'z' + 1))
    || (ltb (b'A' - 1) (code c) && ltb (code c) (b'Z' + 1))

unfoldable pub span : (Char → Bool) → String → String × String
span p String.[] = ("", "")
span p (String.◌∷◌ c s) =
    let (xs, rest) = span p s in if p c then (String.◌∷◌ c xs, rest) else ("", String.◌∷◌ c s)

-- The text after the character `b`, if it begins with it.
unfoldable pub after : ℕ → String → Option String
after b String.[] = none
after b (String.◌∷◌ c s) = if eqb (code c) b then some s else none

unfoldable pub find_submatch : String → Option (String × String)
unfolding is_alphanumeric is_digit span after
find_submatch part =
    let (name, rest) = span is_alphanumeric part in
    elim (after b'[' rest) [
      | none ↦ none
      | some inside ↦
          let (index, end) = span is_digit inside in
          if name == "" || index == ""
          then none
          else elim (after b']' end) [ none ↦ none | some _ ↦ some (name, index) ]
    ]

unfoldable pub parse_parts : List String → List String
unfolding find_submatch
parse_parts [] = []
parse_parts (part ∷ parts) = elim (find_submatch part) [
  | none ↦ part ∷ parse_parts parts
  | some (name, index) ↦ name ∷ index ∷ parse_parts parts
]

unfoldable pub parse_key_path : String → List String
unfolding parse_parts
parse_key_path path = parse_parts (split_char b'.' path)

parse_key_path_test :
    parse_key_path "spec.containers[12].name" ≡ "spec" ∷ "containers" ∷ "12" ∷ "name" ∷ []
unfolding parse_key_path split_char
parse_key_path_test = refl

module _ (yaml : Yaml) (json : Json) where
  open yaml use {
    Node, Cursor, unmarshal, lookup_create, encode, get_labels, set_labels, marshal_json,
  }

  unfoldable pub new_mutation_result : Entity → Result (MutationResult Node)
  new_mutation_result entity = do
    raw ←
        map_err (λ e. "failed to marshal entity " <> entity.name <> ". error: " <> e)
          (json.marshal entity.manifest)
    node ←
        map_err (λ e. "failed to unmarshal entity " <> entity.name <> ". error: " <> e)
          (unmarshal raw)
    ok (record { raw = raw; node = node })

  -- A `json.Number` is written as a float64.
  unfoldable pub plain_value : Value → Result Value
  plain_value (number n) = json.float64 n >>= λ f. ok (float f)
  plain_value v = ok v

  unfoldable pub write_at : Cursor → Value → Node → Bool × Node
  write_at cursor v node = elim (plain_value v) [
    | err e ↦ (false, node)
    | ok value ↦
        let (answer, written) = encode cursor value node in
        elim answer [ err e ↦ (false, written) | ok _ ↦ (true, written) ]
  ]

  unfoldable pub write_value : String → Value → Node → Bool × Node
  unfolding write_at
  write_value key v node =
      let (found, node') = lookup_create (parse_key_path key) node in
      elim found [
        | err e ↦ (false, node')
        | ok none ↦ (false, node')
        | ok (some cursor) ↦ write_at cursor v node'
      ]

  -- One round of `Mutate`'s loop: whether the value was written, and the document.
  unfoldable pub mutate_one : Occurrence → Node → Bool × Node
  unfolding write_value
  mutate_one occurrence node = elim occurrence.violating_key [
    | none ↦ (false, node)
    | some key ↦ elim occurrence.recommended_value [
      | null ↦ (false, node)
      | v ↦ write_value key v node
    ]
  ]

  abbrev mark : Bool → Occurrence → Occurrence
  mark done o = if done then record o { mutated = true } else o

  -- The loop: whether any value was written, the document, and the occurrences.
  unfoldable pub mutate_all : List Occurrence → Node → Bool × Node × List Occurrence
  mutate_all [] node = (false, node, [])
  mutate_all (o ∷ os) node =
      let (done, node') = mutate_one o node in
      let (later, final, rest) = mutate_all os node' in (done || later, final, mark done o ∷ rest)

  -- `Mutate`, which never returns an error.
  unfoldable pub mutate :
      MutationResult Node → List Occurrence → MutationResult Node × List Occurrence
  mutate m occurrences =
      let (mutated, node, os) = mutate_all occurrences m.node in
      let labelled = set_labels (insert mutated_label "" (get_labels node)) node in
      (record m { node = if mutated then labelled else node }, os)

  unfoldable pub new_resource : MutationResult Node → Result String
  new_resource m = marshal_json m.node

-- `OldResource`.
abbrev pub old_resource : {N : Type 0} → MutationResult N → String
old_resource m = m.raw
