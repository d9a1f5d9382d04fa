-- ===== src/Controller/Reconciliation.antt =====
-- The status that `Reconcile` gives a policy config (controllers/policyconfig_controller.go).
use policy_agent.Prelude.{
  String, false, List, [], ◌∷◌, some, Result, ok, ◌≡◌, refl, ◌≢◌, ◌↔◌, ◌⊎◌, inl, inr, arith, All,
  Member, Bool-cases, Result-cases, map, sym, ap, subst, none, true,
}
use policy_agent.Api.{PolicyConfigCrd, set_policy_config_status}
use policy_agent.Controller.{
  Answer, found, not_found, failed, missing_policies, reconcile, index_keys,
}

-- The API server answers with the policy, or that there is none.
abbrev pub IsDefinite : {P : Type 0} → Answer P → Type 0
IsDefinite (failed e) = ⊥
IsDefinite _ = Unit

Answer-cases :
    {P : Type 0} (a : Answer P) → IsDefinite a → (a ≡ not_found) ⊎ ((p : P) × (a ≡ found p))
Answer-cases (found p) h = inr (p, refl)
Answer-cases not_found h = inl refl
Answer-cases (failed e) h = absurd h

module _ {P : Type 0} (get : String → Answer P) where
  -- The ids in the second list are those of the first whose policy is not found.
  abbrev pub AreMissing : List String → List String → Type 0
  AreMissing ids ms = (id : String) → Member id ms ↔ (Member id ids × (get id ≡ not_found))

  pub missing_policies-AreMissing :
      (ids : List String)
      → All (λ id. IsDefinite (get id)) ids
      → (ms : List String) × (missing_policies get ids ≡ ok ms) × AreMissing ids ms
  unfolding missing_policies
  missing_policies-AreMissing [] h = ([], refl, λ id. (λ m. absurd m, λ m. absurd (m.0)))
  missing_policies-AreMissing (id ∷ ids) (h, hs) =
      let (ms, e, iff) = missing_policies-AreMissing ids hs in
      elim (Answer-cases (get id) h) [
        | inl gone ↦ (
          id ∷ ms,
          rw (gone, e, missing_policies) refl,
          λ x. (
            λ m. elim m [
              | inl q ↦ (inl q, rw q gone)
              | inr k ↦ (inr ((iff x).0 k).0, ((iff x).0 k).1)
            ],
            λ m. elim (m.0) [ inl q ↦ inl q | inr k ↦ inr ((iff x).1 (k, m.1)) ],
          ),
        )
        | inr (p, there) ↦ (
          ms,
          rw (there, e, missing_policies) refl,
          λ x. (
            λ m. (inr ((iff x).0 m).0, ((iff x).0 m).1),
            λ m. elim (m.0) [
              | inl q ↦ absurd (ground (arith, q, m.1, there))
              | inr k ↦ (iff x).1 (k, m.1)
            ],
          ),
        )
      ]

  -- A config that has been reconciled: nothing but its status is changed, the status lists the
  -- policies that are configured and not found, and it is a warning exactly if there is one.
  pub record IsReconciled (c u : PolicyConfigCrd) : Type 0 where
    pub kept : u ≡ record c { status = u.status }
    pub missing : AreMissing (index_keys c) u.status.missing_policies
    pub verdict :
        ((u.status.missing_policies ≡ []) × (u.status.status ≡ "OK"))
        ⊎ ((u.status.missing_policies ≢ []) × (u.status.status ≡ "Warning"))

  pub set_status-IsReconciled :
      (c : PolicyConfigCrd) (ms : List String)
      → AreMissing (index_keys c) ms
      → IsReconciled c (set_policy_config_status ms c)
  unfolding set_policy_config_status
  set_status-IsReconciled c [] h = record { kept = refl; missing = h; verdict = inl (refl, refl) }
  set_status-IsReconciled c (m ∷ ms) h = record {
    kept = refl;
    missing = h;
    verdict = inr (λ e. cc, refl);
  }

  pub reconcile-patch :
      (c : PolicyConfigCrd) (patch : PolicyConfigCrd → Result (Unit {0})) (ms : List String)
      → c.deleting ≡ false
      → missing_policies get (index_keys c) ≡ ok ms
      → patch (set_policy_config_status ms c) ≡ ok tt
      → reconcile (found c) get patch ≡ ok (some (set_policy_config_status ms c))
  unfolding reconcile index_keys
  reconcile-patch c patch ms stays listed taken = ground arith

  -- If a stored config is not being deleted, the API server answers for each of its policies and takes
  -- the patch, then `Reconcile` patches the config, and what it patches is reconciled.
  pub reconcile-IsReconciled :
      (c : PolicyConfigCrd) (patch : PolicyConfigCrd → Result (Unit {0}))
      → c.deleting ≡ false
      → All (λ id. IsDefinite (get id)) (index_keys c)
      → ((u : PolicyConfigCrd) → patch u ≡ ok tt)
      → (u : PolicyConfigCrd) × (reconcile (found c) get patch ≡ ok (some u)) × IsReconciled c u
  reconcile-IsReconciled c patch stays definite taken =
      let (ms, e, iff) = missing_policies-AreMissing (index_keys c) definite in
      (
        set_policy_config_status ms c,
        reconcile-patch c patch ms stays e (taken (set_policy_config_status ms c)),
        set_status-IsReconciled c ms iff,
      )

module _ {P : Type 0} (get : String → Answer P) where
  missing_policies-ok :
      (ids ms : List String)
      → missing_policies get ids ≡ ok ms
      → All (λ id. IsDefinite (get id)) ids
  unfolding missing_policies
  missing_policies-ok [] ms e = tt
  missing_policies-ok (id ∷ ids) ms e = elim (any_answer (get id)) [
    | inl d ↦ elim (Answer-cases (get id) d) [
      | inl gone ↦ elim (Result-cases (missing_policies get ids)) [
        | inl (rest, good) ↦ (d, missing_policies-ok ids rest good)
        | inr (x, bad) ↦ absurd (ground arith)
      ]
      | inr (p, there) ↦ (d, missing_policies-ok ids ms (rw (there, missing_policies) at e))
    ]
    | inr (x, bad) ↦ absurd (ground arith)
  ]
    where
      any_answer : (a : Answer P) → IsDefinite a ⊎ ((e : String) × (a ≡ failed e))
      any_answer (found p) = inl tt
      any_answer not_found = inl tt
      any_answer (failed e) = inr (e, refl)

  -- Every policy that `missing_policies` lists, and no other, is missing.
  pub missing_policies-exact :
      (ids ms : List String)
      → missing_policies get ids ≡ ok ms
      → All (λ id. IsDefinite (get id)) ids × AreMissing get ids ms
  missing_policies-exact ids ms e =
      let definite = missing_policies-ok ids ms e in
      let (found_missing, f, iff) = missing_policies-AreMissing get ids definite in
      let same : found_missing ≡ ms = cc in (definite, subst (λ l. AreMissing get ids l) same iff)

  -- What `Reconcile` patches is the config with the status for the policies that are missing.
  pub reconcile-some :
      (c u : PolicyConfigCrd) (patch : PolicyConfigCrd → Result (Unit {0}))
      → reconcile (found c) get patch ≡ ok (some u)
      → (ms : List String) × (missing_policies get (index_keys c) ≡ ok ms)
        × (u ≡ set_policy_config_status ms c)
  unfolding reconcile index_keys
  reconcile-some c u patch e = elim (Bool-cases c.deleting) [
    | inl gone ↦ absurd (ground arith)
    | inr stays ↦ elim (Result-cases (missing_policies get (map (λ e. e.0) c.config))) [
      | inr (x, bad) ↦ absurd (ground arith)
      | inl (ms, good) ↦ elim (Result-cases (patch (set_policy_config_status ms c))) [
        | inr (x, bad) ↦ absurd (ground arith)
        | inl (x, taken) ↦
            let same : set_policy_config_status ms c ≡ u = ground arith in (ms, good, sym same)
      ]
    ]
  ]

  pub reconcile-none :
      (c : PolicyConfigCrd) (patch : PolicyConfigCrd → Result (Unit {0}))
      → reconcile (found c) get patch ≡ ok none
      → c.deleting ≡ true
  unfolding reconcile
  reconcile-none c patch e = elim (Bool-cases c.deleting) [
    | inl gone ↦ gone
    | inr stays ↦ elim (Result-cases (missing_policies get (map (λ e. e.0) c.config))) [
      | inr (x, bad) ↦ absurd (ground arith)
      | inl (ms, good) ↦ elim (Result-cases (patch (set_policy_config_status ms c))) [
        | inr (x, bad) ↦ absurd (ground arith)
        | inl (x, taken) ↦ absurd (ground arith)
      ]
    ]
  ]

  -- Whatever the API server answers, a config that `Reconcile` patches keeps its name and its targets.
  pub reconcile-kept :
      (c u : PolicyConfigCrd) (patch : PolicyConfigCrd → Result (Unit {0}))
      → reconcile (found c) get patch ≡ ok (some u)
      → (u.name ≡ c.name) × (u.match ≡ c.match)
  unfolding set_policy_config_status
  reconcile-kept c u patch e =
      let (ms, _, same) = reconcile-some c u patch e in
      (ap (λ (z : PolicyConfigCrd). z.name) same, ap (λ (z : PolicyConfigCrd). z.match) same)
