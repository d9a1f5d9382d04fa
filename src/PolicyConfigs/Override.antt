-- ===== src/PolicyConfigs/Override.antt =====
-- The last config that sets a parameter decides it (internal/policies/policyconfig.go, `override`).
use policy_agent.Prelude.{
  String, ◌&&◌, List, [], ◌∷◌, Option, none, some, Result, ok, Result-cases, Map, lookup, insert,
  lookup-insert, text_at, ◌≡◌, refl, ap, ◌∙◌, subst, inl, inr, Bool-cases, arith, All, eq_iff,
  if◌then◌else◌, ◌==◌,
}
use policy_agent.Value.{Value}
use policy_agent.Domain.{PolicyConfig, PolicyConfigConfig, PolicyConfigParameter}
use policy_agent.Api.{PolicyConfigCrd, RawJson}
use policy_agent.PolicyConfigs.{
  at, put, Merged, merge_parameters, merge_policies, merge_configs, decode_parameters,
  decode_config, override,
}

-- A Go map has one entry for a key.
abbrev pub IsMap {ℓ} : {V : Type ℓ} → Map V → Type ℓ
IsMap [] = Unit
IsMap ((k, v) ∷ m) = (lookup k m ≡ none) × IsMap m

abbrev pub IsConfig : PolicyConfigCrd → Type 0
IsConfig c = IsMap c.config × All (λ e. IsMap e.1) c.config

abbrev pub or_else {ℓ} : {A : Type ℓ} → Option A → Option A → Option A
or_else (some a) o = some a
or_else none o = o

abbrev pub map_option {ℓ κ} : {A : Type ℓ} {B : Type κ} → (A → B) → Option A → Option B
map_option f none = none
map_option f (some a) = some (f a)

module _ {V : Type 0} where
  -- `m[p][k]`.
  abbrev pub get2 : String → String → Map (Map V) → Option V
  get2 p k m = lookup k (at p m)

  get2-put :
      (p k q j : String) (v : V) (m : Map (Map V))
      → get2 p k (put q j v m) ≡ (if q == p && j == k then some v else get2 p k m)
  unfolding put
  get2-put p k q j v m = ground (
    arith,
    eq_iff q p,
    eq_iff j k,
    lookup-insert q p (insert j v (at q m)) m,
    lookup-insert j k v (at q m),
  )

  get2-ensure : (p k q : String) (m : Map (Map V)) → get2 p k (insert q (at q m) m) ≡ get2 p k m
  unfolding lookup
  get2-ensure p k q m = ground (arith, eq_iff q p, lookup-insert q p (at q m) m)

or_else-none : {A : Type 0} (o : Option A) → or_else o none ≡ o
or_else-none none = refl
or_else-none (some a) = refl

-- The merge of one map of maps: `f` is what is stored for a value, and `prepare` what is done first
-- for a policy.
module _ {V : Type 0} (f : RawJson → V) (prepare : String → Map (Map V) → Map (Map V)) where
  put_all : String → Map RawJson → Map (Map V) → Map (Map V)
  put_all q [] m = m
  put_all q ((k, v) ∷ ps) m = put_all q ps (put q k (f v) m)

  merge : Map (Map RawJson) → Map (Map V) → Map (Map V)
  merge [] m = m
  merge ((q, ps) ∷ rest) m = merge rest (put_all q ps (prepare q m))

  get2-put_all :
      (p k q : String) (ps : Map RawJson) (m : Map (Map V))
      → IsMap ps
      → get2 p k (put_all q ps m)
        ≡ (if q == p then or_else (map_option f (lookup k ps)) (get2 p k m) else get2 p k m)
  unfolding put_all lookup
  get2-put_all p k q [] m h = ground arith
  get2-put_all p k q ((j, v) ∷ ps) m (fresh, h) = ground (
    arith,
    eq_iff q p,
    eq_iff j k,
    get2-put_all p k q ps (put q j (f v) m) h,
    get2-put p k q j (f v) m,
  )

  module _ (law : (p k q : String) (m : Map (Map V)) → get2 p k (prepare q m) ≡ get2 p k m) where
    get2-merge :
        (p k : String) (cs : Map (Map RawJson)) (m : Map (Map V))
        → IsMap cs
        → All (λ e. IsMap e.1) cs
        → get2 p k (merge cs m) ≡ or_else (map_option f (get2 p k cs)) (get2 p k m)
    unfolding merge lookup
    get2-merge p k [] m h hs = refl
    get2-merge p k ((q, ps) ∷ rest) m (fresh, h) (one, hs) = ground (
      arith,
      eq_iff q p,
      get2-merge p k rest (put_all q ps (prepare q m)) h hs,
      get2-put_all p k q ps (prepare q m) one,
      law p k q m,
    )

-- What the configs say of one parameter of one policy: the raw value, and the name of the config.
-- The last config that sets it counts.
abbrev pub setting : String → String → List PolicyConfigCrd → Option (RawJson × String)
setting p k [] = none
setting p k (c ∷ cs) =
    or_else (setting p k cs) (map_option (λ raw. (raw, c.name)) (get2 p k c.config))

abbrev raw_of : RawJson × String → RawJson
raw_of (raw, name) = raw

abbrev name_of : RawJson × String → String
name_of (raw, name) = name

abbrev ensure : String → Map (Map RawJson) → Map (Map RawJson)
ensure q m = insert q (at q m) m

merge_parameters-put_all :
    (name q : String) (ps : Map RawJson) (s : Merged)
    → merge_parameters name q ps s ≡ record {
      config = put_all (λ raw. raw) ensure q ps s.config;
      history = put_all (λ _. name) (λ _ m. m) q ps s.history;
    }
unfolding merge_parameters put_all
merge_parameters-put_all name q [] s = refl
merge_parameters-put_all name q ((k, v) ∷ ps) s = merge_parameters-put_all name q ps _

merge_policies-merge :
    (name : String) (cs : Map (Map RawJson)) (s : Merged)
    → merge_policies name cs s ≡ record {
      config = merge (λ raw. raw) ensure cs s.config;
      history = merge (λ _. name) (λ _ m. m) cs s.history;
    }
unfolding merge_policies merge
merge_policies-merge name [] s = refl
merge_policies-merge name ((q, ps) ∷ rest) s =
    ap (merge_policies name rest) (merge_parameters-put_all name q ps _)
    ∙ merge_policies-merge name rest _

merge_configs-setting :
    (p k : String) (cs : List PolicyConfigCrd) (s : Merged)
    → All IsConfig cs
    → (get2 p k (merge_configs cs s).config
        ≡ or_else (map_option raw_of (setting p k cs)) (get2 p k s.config))
      × (get2 p k (merge_configs cs s).history
          ≡ or_else (map_option name_of (setting p k cs)) (get2 p k s.history))
unfolding merge_configs
merge_configs-setting p k [] s h = (refl, refl)
merge_configs-setting p k (c ∷ cs) s ((one, each), h) = ground (
  arith,
  merge_configs-setting p k cs (merge_policies c.name c.config s) h,
  merge_policies-merge c.name c.config s,
  get2-merge (λ raw. raw) ensure get2-ensure p k c.config s.config one each,
  get2-merge (λ _. c.name) (λ _ m. m) (λ _ _ _ _. refl) p k c.config s.history one each,
)

module _ (unmarshal : RawJson → Result Value) where
  -- A decoded parameter against the raw one and its reference.
  abbrev pub Reads : Option RawJson → String → Option PolicyConfigParameter → Type 0
  Reads none ref none = Unit
  Reads (some raw) ref (some q) = (unmarshal raw ≡ ok q.value) × (q.config_ref ≡ ref)
  Reads _ ref _ = ⊥

  -- The parameter of a policy in the result.
  abbrev pub parameter_of : String → String → Map PolicyConfigConfig → Option PolicyConfigParameter
  parameter_of p k m = elim (lookup p m) [ none ↦ none | some c ↦ lookup k c.parameters ]

  decode_parameters-Reads :
      (k : String) (refs : Map String) (ps : Map RawJson) (qs : Map PolicyConfigParameter)
      → decode_parameters unmarshal refs ps ≡ ok qs
      → Reads (lookup k ps) (text_at k refs) (lookup k qs)
  unfolding decode_parameters lookup
  decode_parameters-Reads k refs [] qs e =
      let same : [] ≡ qs = cc in
      subst (λ (z : Map PolicyConfigParameter). Reads none (text_at k refs) (lookup k z)) same tt
  decode_parameters-Reads k refs ((j, raw) ∷ ps) qs e = elim (Result-cases (unmarshal raw)) [
    | inr (x, bad) ↦ absurd (ground arith)
    | inl (v, good) ↦ elim (Result-cases (decode_parameters unmarshal refs ps)) [
      | inr (x, bad) ↦ absurd (ground arith)
      | inl (rest, er) ↦
          let q : PolicyConfigParameter = record { value = v; config_ref = text_at j refs } in
          let same : ((j, q) ∷ rest) ≡ qs = ground arith in
          let later = decode_parameters-Reads k refs ps rest er in
          subst
            (λ (z : Map PolicyConfigParameter).
              Reads (lookup k ((j, raw) ∷ ps)) (text_at k refs) (lookup k z))
            same
            (elim (Bool-cases (j == k)) [
              | inl hit ↦ rw hit (good, ap (λ x. text_at x refs) ((eq_iff j k).0 hit))
              | inr miss ↦ rw miss later
            ])
    ]
  ]

  decode_config-Reads :
      (p k : String) (history : Map (Map String)) (m : Map (Map RawJson))
      (r : Map PolicyConfigConfig)
      → decode_config unmarshal history m ≡ ok r
      → Reads (get2 p k m) (text_at k (at p history)) (parameter_of p k r)
  unfolding decode_config lookup
  decode_config-Reads p k history [] r e =
      let same : [] ≡ r = cc in
      subst
        (λ (z : Map PolicyConfigConfig). Reads none (text_at k (at p history)) (parameter_of p k z))
        same tt
  decode_config-Reads p k history ((q, ps) ∷ m) r e =
      elim (Result-cases (decode_parameters unmarshal (at q history) ps)) [
        | inr (x, bad) ↦ absurd (ground arith)
        | inl (qs, good) ↦ elim (Result-cases (decode_config unmarshal history m)) [
          | inr (x, bad) ↦ absurd (ground arith)
          | inl (rest, er) ↦
              let c : PolicyConfigConfig = record { parameters = qs } in
              let same : ((q, c) ∷ rest) ≡ r = ground arith in
              let later = decode_config-Reads p k history m rest er in
              subst
                (λ (z : Map PolicyConfigConfig).
                  Reads (get2 p k ((q, ps) ∷ m)) (text_at k (at p history)) (parameter_of p k z))
                same
                (elim (Bool-cases (q == p)) [
                  | inl hit ↦
                      let left : get2 p k ((q, ps) ∷ m) ≡ lookup k ps = ground arith in
                      let right : parameter_of p k ((q, c) ∷ rest) ≡ lookup k qs = ground arith in
                      rw (left, right)
                        (subst (λ x. Reads (lookup k ps) (text_at k (at x history)) (lookup k qs))
                          ((eq_iff q p).0 hit)
                          (decode_parameters-Reads k (at q history) ps qs good))
                  | inr miss ↦
                      let left : get2 p k ((q, ps) ∷ m) ≡ get2 p k m = ground arith in
                      let right : parameter_of p k ((q, c) ∷ rest) ≡ parameter_of p k rest =
                        ground arith in
                      rw (left, right) later
                ])
        ]
      ]

  -- What a parameter is in the result, against what the configs say of it.
  abbrev pub Decides : Option (RawJson × String) → Option PolicyConfigParameter → Type 0
  Decides none none = Unit
  Decides (some (raw, name)) (some q) = (unmarshal raw ≡ ok q.value) × (q.config_ref ≡ name)
  Decides _ _ = ⊥

  Reads-Decides :
      (said : Option (RawJson × String)) (ref : String) (q : Option PolicyConfigParameter)
      → Reads (map_option raw_of said) ref q
      → ((r : RawJson × String) → said ≡ some r → ref ≡ name_of r)
      → Decides said q
  Reads-Decides none ref none h n = tt
  Reads-Decides none ref (some q) h n = h
  Reads-Decides (some r) ref none h n = h
  Reads-Decides (some (raw, name)) ref (some q) h n = (h.0, h.1 ∙ n (raw, name) refl)

  -- When `override` succeeds, a parameter of a policy is in the result exactly when one of the configs
  -- sets it, with the decoded value that the last such config gives it, and with that config's name.
  pub override-Decides :
      (cs : List PolicyConfigCrd) (r : PolicyConfig) (p k : String)
      → All IsConfig cs
      → override unmarshal cs ≡ ok r
      → Decides (setting p k cs) (parameter_of p k r.config)
  unfolding override lookup
  override-Decides cs r p k h e =
      let start : Merged = record { config = []; history = [] } in
      let merged = merge_configs cs start in
      let (raws, names) = merge_configs-setting p k cs start h in
      elim (Result-cases (decode_config unmarshal merged.history merged.config)) [
        | inr (x, bad) ↦ absurd (ground arith)
        | inl (config, good) ↦
            let same : config ≡ r.config = ground arith in
            Reads-Decides (setting p k cs) (text_at k (at p merged.history))
              (parameter_of p k r.config)
              (subst (λ o. Reads o (text_at k (at p merged.history)) (parameter_of p k r.config))
                (raws ∙ or_else-none (map_option raw_of (setting p k cs)))
                (subst
                  (λ z.
                    Reads (get2 p k merged.config) (text_at k (at p merged.history))
                      (parameter_of p k z))
                  same (decode_config-Reads p k merged.history merged.config config good)))
              (λ said eq. ground (arith, names))
      ]
