-- ===== src/Domain/Repairs.antt =====
-- When one round of `Mutate` repairs an occurrence, and what becomes of the document
-- (pkg/policy-core/domain/mutation.go).
use policy_agent.Prelude.{
  ℕ, String, Bool, true, false, Option-cases, none, some, ok, Result-cases, ◌≡◌, refl, sym, subst,
  ◌≢◌, ◌⊎◌, inl, inr, arith,
}
use policy_agent.Value.{Value, null, text, number, float, boolean, object, array}
use policy_agent.Domain.{Occurrence}
use policy_agent.Domain.Mutation.{
  Yaml, Json, plain_value, parse_key_path, write_at, write_value, mutate_one,
}

Value-cases : (v : Value) → (v ≡ null) ⊎ (v ≢ null)
Value-cases null = inl refl
Value-cases (text s) = inr (λ e. cc)
Value-cases (number s) = inr (λ e. cc)
Value-cases (float n) = inr (λ e. cc)
Value-cases (boolean b) = inr (λ e. cc)
Value-cases (object fs) = inr (λ e. cc)
Value-cases (array vs) = inr (λ e. cc)

module _ (yaml : Yaml) (json : Json) where
  -- The value that is written for a recommended one: a `json.Number` as the number that it reads as.
  abbrev pub IsPlain : Value → Value → Type 0
  IsPlain (number n) w = (f : ℕ) × (json.float64 n ≡ ok f) × (w ≡ float f)
  IsPlain v w = w ≡ v

  -- Every step of the repair of an occurrence succeeds and leaves `after`.
  pub record IsRepair (o : Occurrence) (before after : yaml.Node) : Type 0 where
    pub key : String
    pub key_is : o.violating_key ≡ some key
    pub recommends : o.recommended_value ≢ null
    pub cursor : yaml.Cursor
    pub found : yaml.Node
    pub found_is : yaml.lookup_create (parse_key_path key) before ≡ (ok (some cursor), found)
    pub value : Value
    pub value_is : IsPlain o.recommended_value value
    pub written_is : yaml.encode cursor value found ≡ (ok tt, after)

  -- What an attempt that fails leaves: nothing new, what the search made, or what the encoder made.
  abbrev pub IsRemains : Occurrence → yaml.Node → yaml.Node → Type 0
  IsRemains o before left =
      (((o.violating_key ≡ none) ⊎ (o.recommended_value ≡ null)) × (left ≡ before))
      ⊎ ((key : String) × (o.violating_key ≡ some key)
          × ((left ≡ (yaml.lookup_create (parse_key_path key) before).1)
              ⊎ ((cursor : yaml.Cursor) × (value : Value) × (left
                    ≡ (yaml.encode cursor value
                        (yaml.lookup_create (parse_key_path key) before).1).1))))

  plain_value-IsPlain : (v w : Value) → plain_value yaml json v ≡ ok w → IsPlain v w
  unfolding plain_value
  plain_value-IsPlain (number n) w h = elim (Result-cases (json.float64 n)) [
    | inl (f, e) ↦ (f, e, ground arith)
    | inr (x, e) ↦ absurd (ground arith)
  ]
  plain_value-IsPlain null w h = ground arith
  plain_value-IsPlain (text s) w h = ground arith
  plain_value-IsPlain (float n) w h = ground arith
  plain_value-IsPlain (boolean b) w h = ground arith
  plain_value-IsPlain (object fs) w h = ground arith
  plain_value-IsPlain (array vs) w h = ground arith

  IsPlain-plain_value : (v w : Value) → IsPlain v w → plain_value yaml json v ≡ ok w
  unfolding plain_value
  IsPlain-plain_value (number n) w (f, e, h) = rw (e, h) refl
  IsPlain-plain_value null w h = ground arith
  IsPlain-plain_value (text s) w h = ground arith
  IsPlain-plain_value (float n) w h = ground arith
  IsPlain-plain_value (boolean b) w h = ground arith
  IsPlain-plain_value (object fs) w h = ground arith
  IsPlain-plain_value (array vs) w h = ground arith

  -- The search of a repair is the one for the key of the occurrence.
  IsRepair-search :
      (o : Occurrence) (before after : yaml.Node) (key : String) (r : IsRepair o before after)
      → o.violating_key ≡ some key
      → yaml.lookup_create (parse_key_path key) before ≡ (ok (some r.cursor), r.found)
  IsRepair-search o before after key r e =
      let e2 = r.key_is in let same : r.key ≡ key = cc in rw same at r.found_is

  -- One round answers that it has repaired the occurrence exactly if it has.
  abbrev pub IsRound : Occurrence → yaml.Node → Bool × yaml.Node → Type 0
  IsRound o node (done, after) =
      ((done ≡ true) × IsRepair o node after)
      ⊎ ((done ≡ false) × ((n : yaml.Node) → ¬ IsRepair o node n) × IsRemains o node after)

  mutate_one-write_value :
      (o : Occurrence) (node : yaml.Node) (key : String) (v : Value)
      → o.violating_key ≡ some key
      → o.recommended_value ≡ v
      → v ≢ null
      → mutate_one yaml json o node ≡ write_value yaml json key v node
  unfolding mutate_one
  mutate_one-write_value o node key null e q h = absurd (h refl)
  mutate_one-write_value o node key (text s) e q h = rw (e, q, mutate_one) refl
  mutate_one-write_value o node key (number n) e q h = rw (e, q, mutate_one) refl
  mutate_one-write_value o node key (float n) e q h = rw (e, q, mutate_one) refl
  mutate_one-write_value o node key (boolean b) e q h = rw (e, q, mutate_one) refl
  mutate_one-write_value o node key (object fs) e q h = rw (e, q, mutate_one) refl
  mutate_one-write_value o node key (array vs) e q h = rw (e, q, mutate_one) refl

  write_value-IsRound :
      (o : Occurrence) (node : yaml.Node) (key : String)
      → o.violating_key ≡ some key
      → o.recommended_value ≢ null
      → IsRound o node (write_value yaml json key o.recommended_value node)
  unfolding write_value write_at
  write_value-IsRound o node key e q =
      let (answer, found) = yaml.lookup_create (parse_key_path key) node in
      elim (Result-cases answer) [
        | inr (x, f) ↦
            let same : write_value yaml json key o.recommended_value node ≡ (false, found) =
              ground arith in
            subst (IsRound o node) (sym same) (
              inr (
                refl,
                (λ n r. let s = IsRepair-search o node n key r e in absurd (cc)),
                inr (key, e, inl refl),
              ))
        | inl (c, f) ↦ elim (Option-cases c) [
          | inl g ↦
              let same : write_value yaml json key o.recommended_value node ≡ (false, found) =
                ground arith in
              subst (IsRound o node) (sym same) (
                inr (
                  refl,
                  (λ n r. let s = IsRepair-search o node n key r e in absurd (ground arith)),
                  inr (key, e, inl refl),
                ))
          | inr (cursor, g) ↦ elim (Result-cases (plain_value yaml json o.recommended_value)) [
            | inr (x, i) ↦
                let same : write_value yaml json key o.recommended_value node ≡ (false, found) =
                  ground arith in
                subst (IsRound o node) (sym same) (
                  inr (
                    refl,
                    (λ n r. let s = IsPlain-plain_value _ _ r.value_is in absurd (ground arith)),
                    inr (key, e, inl refl),
                  ))
            | inl (value, i) ↦ elim (Result-cases (yaml.encode cursor value found).0) [
              | inr (x, j) ↦
                  let after = (yaml.encode cursor value found).1 in
                  let same : write_value yaml json key o.recommended_value node ≡ (false, after) =
                    ground arith in
                  subst (IsRound o node) (sym same) (
                    inr (
                      refl,
                      (λ n r.
                          let s = IsRepair-search o node n key r e in
                          let t = IsPlain-plain_value _ _ r.value_is in
                          let w = r.written_is in absurd (ground arith)),
                      inr (key, e, inr (cursor, value, refl)),
                    ))
              | inl (u, j) ↦
                  let after = (yaml.encode cursor value found).1 in
                  let same : write_value yaml json key o.recommended_value node ≡ (true, after) =
                    ground arith in
                  subst (IsRound o node) (sym same) (
                    inl (
                      refl,
                      record {
                        key = key;
                        key_is = e;
                        recommends = q;
                        cursor = cursor;
                        found = found;
                        found_is = ground arith;
                        value = value;
                        value_is = plain_value-IsPlain _ _ i;
                        written_is = ground arith;
                      },
                    ))
            ]
          ]
        ]
      ]

  pub mutate_one-IsRound :
      (o : Occurrence) (node : yaml.Node) → IsRound o node (mutate_one yaml json o node)
  unfolding mutate_one
  mutate_one-IsRound o node = elim (Option-cases o.violating_key) [
    | inl e ↦
        let same : mutate_one yaml json o node ≡ (false, node) = rw (e, mutate_one) refl in
        subst (IsRound o node) (sym same)
          (inr (refl, (λ n r. let k = r.key_is in absurd (cc)), inl (inl e, refl)))
    | inr (key, e) ↦ elim (Value-cases o.recommended_value) [
      | inl q ↦
          let same : mutate_one yaml json o node ≡ (false, node) = rw (e, q, mutate_one) refl in
          subst (IsRound o node) (sym same) (inr (refl, (λ n r. r.recommends q), inl (inr q, refl)))
      | inr q ↦
          subst (IsRound o node)
            (sym (mutate_one-write_value o node key o.recommended_value e refl q))
            (write_value-IsRound o node key e q)
    ]
  ]
