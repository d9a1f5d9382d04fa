-- ===== src/Controller/Loop/Worker.antt =====
-- What the worker of the control loop does with one request, where the API server answers
-- (controllers/policyconfig_controller.go).
use policy_agent.Prelude.{
  Map, lookup, String, Bool, true, false, List, [], ◌∷◌, ◌++◌, Option, none, some, Result, ok, ◌≡◌,
  ◌⊎◌, inl, inr, refl, sym, ap, subst, ◌∙◌, All,
}
use policy_agent.Api.{PolicyConfigCrd, PolicyCrd}
use policy_agent.Controller.{Answer, found, not_found, reconcile}
use policy_agent.Controller.Reconciliation.{IsDefinite}
use policy_agent.Controller.Loop.{
  Running, Cluster, store, AnswersFor, patch_stored, begin, patches, Reach, here, next,
}
use policy_agent.Controller.Loop.Statuses.{store-hit, store-miss, String-cases}

-- The API server answers, as the cluster is.
abbrev pub Answers : (String → Bool) → (String → Answer PolicyCrd) → Type 0
Answers policies get =
    (id : String)
    → ((get id ≡ not_found) × (policies id ≡ false))
      ⊎ ((p : PolicyCrd) × (get id ≡ found p) × (policies id ≡ true))

pub Answers-IsDefinite :
    (policies : String → Bool) (get : String → Answer PolicyCrd) (ids : List String)
    → Answers policies get
    → All (λ id. IsDefinite (get id)) ids
Answers-IsDefinite policies get [] h = tt
Answers-IsDefinite policies get (id ∷ ids) h = (
  elim (h id) [
    | inl (g, _) ↦ subst IsDefinite (sym g) tt
    | inr (p, g, _) ↦ subst IsDefinite (sym g) tt
  ],
  Answers-IsDefinite policies get ids h,
)

pub Answers-AnswersFor :
    (s : Cluster) (touched : List String) (get : String → Answer PolicyCrd)
    → Answers s.policies get
    → AnswersFor s touched get
Answers-AnswersFor s touched get h id = elim (h id) [ inl a ↦ inl a | inr a ↦ inr (inl a) ]

-- A config that is kept but for its status.
abbrev pub Keeps : Option PolicyConfigCrd → Option PolicyConfigCrd → Type 0
Keeps none none = Unit
Keeps (some c) (some d) = d ≡ record c { status = d.status }
Keeps _ _ = ⊥

pub Keeps-refl : (o : Option PolicyConfigCrd) → Keeps o o
Keeps-refl none = tt
Keeps-refl (some c) = refl

pub Keeps-trans : (o p q : Option PolicyConfigCrd) → Keeps o p → Keeps p q → Keeps o q
Keeps-trans none none none h k = tt
Keeps-trans (some c) (some d) (some e) h k =
    k ∙ ap (λ (z : PolicyConfigCrd). record z { status = e.status }) h
Keeps-trans none (some d) q h k = absurd h
Keeps-trans (some c) none q h k = absurd h
Keeps-trans none none (some e) h k = absurd k
Keeps-trans (some c) (some d) none h k = absurd k

abbrev pub accept : PolicyConfigCrd → Result (Unit {0})
accept u = ok tt

pub reconcile-deleting :
    (c : PolicyConfigCrd) (get : String → Answer PolicyCrd)
    → c.deleting ≡ true
    → reconcile (found c) get accept ≡ ok none
unfolding reconcile
reconcile-deleting c get e = rw (e, reconcile) refl

module _ (list_by_policy : Map PolicyConfigCrd → String → Result (List PolicyConfigCrd))
    (apply_patch : PolicyConfigCrd → PolicyConfigCrd → PolicyConfigCrd → PolicyConfigCrd)
    (patched : (c u : PolicyConfigCrd) → u ≡ record c { status = u.status } → apply_patch c u c ≡ u)
    (only_status : (c u d : PolicyConfigCrd)
      → apply_patch c u d ≡ record d { status = (apply_patch c u d).status }) where
  abbrev pub Leads : Cluster → Cluster → Type 0
  Leads = Reach list_by_policy apply_patch

  pub Reach-append : {s t u : Cluster} → Leads s t → Leads t u → Leads s u
  Reach-append first here = first
  Reach-append first (next run step) = next (Reach-append first run) step

  -- A state that the worker alone reaches, without the request.
  pub record Served (s : Cluster) (rest : List String) : Type 0 where
    pub after : Cluster
    pub run : Leads s after
    pub queue_is : after.queue ≡ rest
    pub idle : after.running ≡ none
    pub same_policies : after.policies ≡ s.policies
    pub keeps : (name : String) → Keeps (lookup name s.configs) (lookup name after.configs)

  pub patch_stored-Keeps :
      (c u : PolicyConfigCrd) (o : Option PolicyConfigCrd)
      → Keeps o (patch_stored list_by_policy apply_patch c u o)
  patch_stored-Keeps c u none = tt
  patch_stored-Keeps c u (some d) = only_status c u d

  pub store-Keeps :
      (m : Map PolicyConfigCrd) (name : String) (c u : PolicyConfigCrd) (n : String)
      → Keeps
          (lookup n m)
          (lookup n (store name (patch_stored list_by_policy apply_patch c u (lookup name m)) m))
  store-Keeps m name c u n = elim (String-cases n name) [
    | inl e ↦
        subst (λ o. Keeps (lookup n m) o) (sym (store-hit name n _ m e))
          (subst
            (λ z. Keeps (lookup n m) (patch_stored list_by_policy apply_patch c u (lookup z m))) e
            (patch_stored-Keeps c u (lookup n m)))
    | inr e ↦
        subst (λ o. Keeps (lookup n m) o) (sym (store-miss name n _ m e)) (Keeps-refl (lookup n m))
  ]

  -- `Reconcile` patches the config that is requested, and it is requested again or not.
  pub round :
      (s : Cluster) (get : String → Answer PolicyCrd) (before after again : List String)
      (name : String) (c u : PolicyConfigCrd)
      → Answers s.policies get
      → s.running ≡ none
      → s.queue ≡ before ++ name ∷ after
      → lookup name s.configs ≡ some c
      → reconcile (found c) get accept ≡ ok (some u)
      → (again ≡ name ∷ [])
        ⊎ ((again ≡ [])
            × (patch_stored list_by_policy apply_patch c u (lookup name s.configs)
                ≡ lookup name s.configs))
      → Leads s (record s {
        configs =
            store name
              (patch_stored list_by_policy apply_patch c u (lookup name s.configs))
              s.configs;
        queue = (before ++ after) ++ again;
        running = none;
      })
  round s get before after again name c u answers quiet listed there told event =
      let r : Running = record { name = name; config = c; touched = [] } in
      next (next here (begin before after name c quiet listed there refl))
        (patches r get accept u again refl (Answers-AnswersFor s [] get answers) told event refl)
