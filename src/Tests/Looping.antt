-- ===== src/Tests/Looping.antt =====
-- A run of the control loop: a config is written whose policy does not exist.
use policy_agent.Prelude.{
  String, true, false, List, [], ◌∷◌, none, some, Result, ok, ◌≡◌, refl, sym, ap, Map, lookup,
  insert, Member, contains, contains_iff, map, inl, inr, arith, Bool-cases, ◌==◌, eq_iff,
  if◌then◌else◌, ◌∙◌,
}
use policy_agent.Api.{PolicyConfigCrd, PolicyCrd, set_policy_config_status}
use policy_agent.Controller.{Answer, not_found, reconcile, missing_policies, index_keys}
use policy_agent.Controller.Loop.{Cluster, nothing, config_event, begin, patches, Reach, here, next}
use policy_agent.Controller.Loop.Statuses.{IsAccurate}
use policy_agent.Controller.Loop.Accuracy.{Reach-IsAccurate}
use policy_agent.Controller.Loop.Settling.{IsSettled, Reach-settles}
use policy_agent.Controller.Loop.Worker.{Keeps}
use policy_agent.Tests.Configuring.{by_resource}

-- The configs that configure a policy, by the names that they are stored under.
listed : String → Map PolicyConfigCrd → List PolicyConfigCrd
listed id [] = []
listed id ((name, c) ∷ m) =
    let rest = listed id m in
    if contains id (index_keys c) then record c { name = name } ∷ rest else rest

abbrev index : Map PolicyConfigCrd → String → Result (List PolicyConfigCrd)
index m id = ok (listed id m)

listed-Member :
    (m : Map PolicyConfigCrd) (name id : String) (c : PolicyConfigCrd)
    → lookup name m ≡ some c
    → Member id (index_keys c)
    → Member name (map (λ (z : PolicyConfigCrd). z.name) (listed id m))
unfolding lookup listed
listed-Member [] name id c e k = absurd (ground arith)
listed-Member ((key, d) ∷ m) name id c e k = elim (Bool-cases (key == name)) [
  | inl hit ↦
      let same : d ≡ c = ground arith in
      let has : contains id (index_keys d) ≡ true =
        ap (λ (z : PolicyConfigCrd). contains id (index_keys z)) same
        ∙ (contains_iff id (index_keys c)).1 k in
      rw has (inl (sym ((eq_iff key name).0 hit)))
  | inr miss ↦
      let later : lookup name m ≡ some c = ground arith in
      let rest = listed-Member m name id c later k in
      elim (Bool-cases (contains id (index_keys d))) [
        | inl has ↦ rw has (inr rest)
        | inr lacks ↦ rw lacks rest
      ]
]

indexed :
    (m : Map PolicyConfigCrd) (name id : String) (c : PolicyConfigCrd)
    → lookup name m ≡ some c
    → Member id (index_keys c)
    → (fs : List PolicyConfigCrd) × (index m id ≡ ok fs)
      × Member name (map (λ (z : PolicyConfigCrd). z.name) fs)
indexed m name id c e k = (listed id m, refl, listed-Member m name id c e k)

abbrev apply_status : PolicyConfigCrd → PolicyConfigCrd → PolicyConfigCrd → PolicyConfigCrd
apply_status old new stored = record stored { status = new.status }

abbrev no_policies : String → Answer PolicyCrd
no_policies id = not_found

abbrev warned : PolicyConfigCrd
warned = record by_resource {
  status = record { status = "Warning"; missing_policies = "deny" ∷ [] };
}

abbrev written : Cluster
written = record nothing { configs = ("narrow", by_resource) ∷ []; queue = "narrow" ∷ [] }

abbrev settled : Cluster
settled = record nothing { configs = ("narrow", warned) ∷ [] }

writing : Reach index apply_status nothing written
unfolding insert
writing = next here (config_event "narrow" (some by_resource) refl)

-- The config is reconciled, and once more since that has changed it.
running : Reach index apply_status nothing settled
unfolding insert lookup reconcile missing_policies set_policy_config_status
running =
    next
      (next
        (next
          (next (next here (config_event "narrow" (some by_resource) refl))
            (begin [] [] "narrow" by_resource refl refl refl refl))
          (patches (record { name = "narrow"; config = by_resource; touched = [] }) no_policies
            (λ u. ok tt) warned ("narrow" ∷ []) refl (λ id. inl (refl, refl)) refl (inl refl) refl))
        (begin [] [] "narrow" warned refl refl refl refl))
      (patches (record { name = "narrow"; config = warned; touched = [] }) no_policies (λ u. ok tt)
        warned [] refl (λ id. inl (refl, refl)) refl (inr (refl, refl)) refl)

stored : lookup "narrow" settled.configs ≡ some warned
unfolding lookup
stored = refl

Reach-IsAccurate_example : IsAccurate (λ id. false) warned
Reach-IsAccurate_example =
    Reach-IsAccurate index apply_status indexed (λ c u e. sym e) settled "narrow" warned running
      refl refl stored

Reach-settles_example :
    (t : Cluster) × Reach index apply_status written t
    × (t.queue ≡ [])
    × (t.running ≡ none)
    × (t.policies ≡ written.policies)
    × ((name : String) → Keeps (lookup name written.configs) (lookup name t.configs))
    × ((name : String) → IsSettled t.policies (lookup name t.configs))
Reach-settles_example =
    Reach-settles index apply_status (λ c u e. sym e) (λ c u d. refl) indexed written no_policies
      writing (λ id. inl (refl, refl))
