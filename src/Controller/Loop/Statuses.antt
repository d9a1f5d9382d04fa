-- ===== src/Controller/Loop/Statuses.antt =====
-- When the status of a policy config is accurate, and what keeps it so
-- (controllers/policyconfig_controller.go).
use policy_agent.Prelude.{
  Map, lookup, lookup-insert, lookup-delete, String, Bool, true, false, List, [], ◌∷◌, ◌++◌, Option,
  none, some, Result, ok, ◌≡◌, ◌≢◌, ◌↔◌, ◌⊎◌, inl, inr, refl, sym, ap, subst, ◌∙◌, if◌then◌else◌,
  ◌==◌, eq_iff, Bool-cases, Member, All, arith,
}
use policy_agent.Api.{PolicyConfigCrd, PolicyCrd, set_policy_config_status}
use policy_agent.Controller.{Answer, found, not_found, reconcile, index_keys}
use policy_agent.Controller.Reconciliation.{
  IsDefinite, reconcile-some, missing_policies-exact, set_status-IsReconciled,
}
use policy_agent.Controller.Loop.{Running, Cluster, touch, set_at, store, AnswersFor}

pub Member-left : (x : String) (xs ys : List String) → Member x xs → Member x (xs ++ ys)
Member-left x [] ys m = absurd m
Member-left x (z ∷ xs) ys (inl e) = inl e
Member-left x (z ∷ xs) ys (inr m) = inr (Member-left x xs ys m)

pub Member-right : (x : String) (xs ys : List String) → Member x ys → Member x (xs ++ ys)
Member-right x [] ys m = m
Member-right x (z ∷ xs) ys m = inr (Member-right x xs ys m)

-- A list without one of its elements keeps the others.
pub Member-removed :
    (x y : String) (xs ys : List String) → x ≢ y → Member x (xs ++ y ∷ ys) → Member x (xs ++ ys)
Member-removed x y [] ys n (inl e) = absurd (n e)
Member-removed x y [] ys n (inr m) = m
Member-removed x y (z ∷ xs) ys n (inl e) = inl e
Member-removed x y (z ∷ xs) ys n (inr m) = inr (Member-removed x y xs ys n m)

-- The status that a config should have where these policies exist.
pub record HasStatus (policies : String → Bool) (c : PolicyConfigCrd) : Type 0 where
  pub missing :
      (id : String)
      → Member id c.status.missing_policies ↔ (Member id (index_keys c) × (policies id ≡ false))
  pub verdict :
      ((c.status.missing_policies ≡ []) × (c.status.status ≡ "OK"))
      ⊎ ((c.status.missing_policies ≢ []) × (c.status.status ≡ "Warning"))

-- A config that is being deleted is let alone.
abbrev pub IsAccurate : (String → Bool) → PolicyConfigCrd → Type 0
IsAccurate policies c = (c.deleting ≡ true) ⊎ HasStatus policies c

-- The worker is busy with the config as it is, and none of its policies has been touched.
pub record IsUnderway (s : Cluster) (name : String) (c : PolicyConfigCrd) : Type 0 where
  pub running : Running
  pub is_running : s.running ≡ some running
  pub same_name : running.name ≡ name
  pub same_config : running.config ≡ c
  pub untouched : (id : String) → Member id running.touched → ¬ Member id (index_keys c)

abbrev pub IsIdle : Cluster → String → Type 0
IsIdle s name = (r : Running) → s.running ≡ some r → r.name ≢ name

-- A config is requested, or the worker is busy with it, or its status is accurate.
abbrev pub IsTracked : Cluster → String → PolicyConfigCrd → Type 0
IsTracked s name c =
    Member name s.queue ⊎ IsUnderway s name c ⊎ (IsIdle s name × IsAccurate s.policies c)

abbrev pub AreTracked : Cluster → Type 0
AreTracked s =
    (name : String) (c : PolicyConfigCrd) → lookup name s.configs ≡ some c → IsTracked s name c

module _ {A : Type 0} (key asked : String) (value : A) (m : String → A) where
  pub set_at-hit : asked ≡ key → set_at key value m asked ≡ value
  set_at-hit e = rw ((eq_iff asked key).1 e) refl

  pub set_at-miss : asked ≢ key → set_at key value m asked ≡ m asked
  set_at-miss n = elim (Bool-cases (asked == key)) [
    | inl e ↦ absurd (n ((eq_iff asked key).0 e))
    | inr e ↦ rw e refl
  ]

pub String-cases : (a b : String) → (a ≡ b) ⊎ (a ≢ b)
String-cases a b = elim (Bool-cases (a == b)) [
  | inl e ↦ inl ((eq_iff a b).0 e)
  | inr n ↦ inr (λ e. absurd (ground (arith, (eq_iff a b).1 e)))
]

module _ (key asked : String) (value : Option PolicyConfigCrd) (m : Map PolicyConfigCrd) where
  lookup-store : lookup asked (store key value m) ≡ (if key == asked then value else lookup asked m)
  lookup-store = by_value value
    where
      by_value :
          (o : Option PolicyConfigCrd)
          → lookup asked (store key o m) ≡ (if key == asked then o else lookup asked m)
      by_value none = lookup-delete key asked m
      by_value (some c) = lookup-insert key asked c m

  pub store-hit : asked ≡ key → lookup asked (store key value m) ≡ value
  store-hit e =
      let same : (key == asked) ≡ true = (eq_iff key asked).1 (sym e) in
      lookup-store ∙ ap (λ b. if b then value else lookup asked m) same

  pub store-miss : asked ≢ key → lookup asked (store key value m) ≡ lookup asked m
  store-miss n = elim (Bool-cases (key == asked)) [
    | inl e ↦ absurd (n (sym ((eq_iff key asked).0 e)))
    | inr e ↦ lookup-store ∙ ap (λ b. if b then value else lookup asked m) e
  ]

-- A policy that a config does not configure makes no difference to its status.
pub HasStatus-set_at :
    (policies : String → Bool) (id : String) (exists : Bool) (c : PolicyConfigCrd)
    → ¬ Member id (index_keys c)
    → HasStatus policies c
    → HasStatus (set_at id exists policies) c
HasStatus-set_at policies id exists c n h = record {
  missing = λ x.
      let other : Member x (index_keys c) → x ≢ id =
        λ m e. n (subst (λ z. Member z (index_keys c)) e m) in
      (
        λ m.
            let (k, absent) = (h.missing x).0 m in
            (k, set_at-miss id x exists policies (other k) ∙ absent),
        λ p. (h.missing x).1 (p.0, sym (set_at-miss id x exists policies (other p.0)) ∙ p.1),
      );
  verdict = h.verdict;
}

pub touch-IsIdle :
    (id name : String) (o : Option Running)
    → ((r : Running) → o ≡ some r → r.name ≢ name)
    → (r : Running) → touch id o ≡ some r
    → r.name ≢ name
touch-IsIdle id name none h r e = absurd (cc)
touch-IsIdle id name (some q) h r e =
    let same : q.name ≡ r.name = ground arith in λ n. h q refl (same ∙ n)

pub All-Member :
    (P : String → Type 0) (x : String) (xs : List String) → All P xs → Member x xs → P x
All-Member P x [] h m = absurd m
All-Member P x (y ∷ ys) (p, h) (inl e) = subst P (sym e) p
All-Member P x (y ∷ ys) (p, h) (inr m) = All-Member P x ys h m

-- Where the answers are those of the cluster as it is, a policy is missing exactly if it does not
-- exist.
pub answer-is :
    (s : Cluster) (touched keys : List String) (get : String → Answer PolicyCrd) (x : String)
    → AnswersFor s touched get
    → ((id : String) → Member id touched → ¬ Member id keys)
    → All (λ id. IsDefinite (get id)) keys
    → Member x keys
    → (get x ≡ not_found) ↔ (s.policies x ≡ false)
answer-is s touched keys get x answers untouched definite m = elim (answers x) [
  | inl (g, p) ↦ (λ _. p, λ _. g)
  | inr k ↦ elim k [
    | inl (q, g, p) ↦ (λ h. absurd (cc), λ h. absurd (cc))
    | inr k ↦ elim k [
      | inl (e, g) ↦
          absurd (subst IsDefinite g (All-Member (λ id. IsDefinite (get id)) x keys definite m))
      | inr t ↦ absurd (untouched x t m)
    ]
  ]
]

pub patches-HasStatus :
    (s : Cluster) (touched : List String) (c u : PolicyConfigCrd) (get : String → Answer PolicyCrd)
    (patch : PolicyConfigCrd → Result (Unit {0}))
    → AnswersFor s touched get
    → ((id : String) → Member id touched → ¬ Member id (index_keys c))
    → reconcile (found c) get patch ≡ ok (some u)
    → HasStatus s.policies u
unfolding index_keys set_policy_config_status
patches-HasStatus s touched c u get patch answers untouched e =
    let (ms, listed, same) = reconcile-some get c u patch e in
    let (definite, missing) = missing_policies-exact get (index_keys c) ms listed in
    let done = set_status-IsReconciled get c ms missing in
    let is = λ (x : String) (m : Member x (index_keys c)).
      answer-is s touched (index_keys c) get x answers untouched definite m in
    subst (λ z. HasStatus s.policies z) (sym same)
      (record {
        missing = λ x. (
          λ m. let (k, g) = (done.missing x).0 m in (k, (is x k).0 g),
          λ p. (done.missing x).1 (p.0, (is x p.0).1 p.1),
        );
        verdict = done.verdict;
      })
