-- ===== src/Controller/Store.antt =====
-- The policy configs that the API server comes to hold when the webhook of
-- controllers/policyconfig_controller.go answers for every one that is created or changed, one at a
-- time.
use policy_agent.Prelude.{
  String, List, [], ◌∷◌, Result, ok, some, ◌≡◌, ◌≢◌, ◌↔◌, refl, sym, ap, subst, true, inl, inr,
  arith, Bool-cases, eq_iff, ◌==◌, if◌then◌else◌, All, Any,
}
use policy_agent.Api.{PolicyConfigCrd, PolicyConfigTarget, PolicyCrd}
use policy_agent.Api.Laws.{count_targets}
use policy_agent.Controller.{Answer, found, handle, allowed, reconcile}
use policy_agent.Controller.Reconciliation.{reconcile-kept}
use policy_agent.Controller.Laws.{
  Common-sym, SharesTarget, AreValid, StandsApart, handle-allowed_iff,
}

-- The store without the config of a name.
abbrev pub without : String → List PolicyConfigCrd → List PolicyConfigCrd
without name [] = []
without name (c ∷ cs) = if c.name == name then without name cs else c ∷ without name cs

-- A config is created or updated if the webhook allows it, its status is patched by `Reconcile`, and
-- it is deleted at will.
pub data Stored : List PolicyConfigCrd → Type 0 where
  empty : Stored []
  admitted :
      {cs : List PolicyConfigCrd} (d : PolicyConfigCrd)
      → Stored cs
      → handle (ok d) (ok cs) ≡ allowed
      → Stored (d ∷ without d.name cs)
  reconciled :
      {cs : List PolicyConfigCrd} (c u : PolicyConfigCrd) (get : String → Answer PolicyCrd)
      (patch : PolicyConfigCrd → Result (Unit {0}))
      → Stored cs
      → Any (λ d. d ≡ c) cs
      → reconcile (found c) get patch ≡ ok (some u)
      → Stored (u ∷ without c.name cs)
  removed : {cs : List PolicyConfigCrd} (name : String) → Stored cs → Stored (without name cs)

-- Two configs have different names and no target in common.
abbrev pub IsApart : PolicyConfigCrd → PolicyConfigCrd → Type 0
IsApart c d = (c.name ≢ d.name) × (¬ SharesTarget c.match d.match)

-- Every two configs of the store are apart.
abbrev pub AreApart : List PolicyConfigCrd → Type 0
AreApart [] = Unit
AreApart (c ∷ cs) = All (λ d. IsApart d c) cs × AreApart cs

All-without :
    (P : PolicyConfigCrd → Type 0) (name : String) (cs : List PolicyConfigCrd)
    → All P cs
    → All P (without name cs)
All-without P name [] h = tt
All-without P name (c ∷ cs) (p, h) = elim (Bool-cases (c.name == name)) [
  | inl e ↦ rw e (All-without P name cs h)
  | inr e ↦ rw e (p, All-without P name cs h)
]

All-Any :
    (P : PolicyConfigCrd → Type 0) (c : PolicyConfigCrd) (cs : List PolicyConfigCrd)
    → All P cs
    → Any (λ d. d ≡ c) cs
    → P c
All-Any P c [] _ m = absurd m
All-Any P c (x ∷ xs) (p, h) (inl e) = subst P e p
All-Any P c (x ∷ xs) (p, h) (inr m) = All-Any P c xs h m

AreApart-without :
    (name : String) (cs : List PolicyConfigCrd) → AreApart cs → AreApart (without name cs)
AreApart-without name [] h = tt
AreApart-without name (c ∷ cs) (p, h) = elim (Bool-cases (c.name == name)) [
  | inl e ↦ rw e (AreApart-without name cs h)
  | inr e ↦ rw e (All-without (λ d. IsApart d c) name cs p, AreApart-without name cs h)
]

StandsApart-without :
    (d : PolicyConfigCrd) (cs : List PolicyConfigCrd)
    → StandsApart d cs
    → All (λ c. IsApart c d) (without d.name cs)
StandsApart-without d [] h = tt
StandsApart-without d (c ∷ cs) (p, h) = elim (Bool-cases (c.name == d.name)) [
  | inl e ↦ rw e (StandsApart-without d cs h)
  | inr e ↦
      let other : c.name ≢ d.name = λ q. absurd (ground (arith, (eq_iff c.name d.name).1 q)) in
      rw e ((other, elim p [ inl q ↦ absurd (other q) | inr n ↦ n ]), StandsApart-without d cs h)
]

SharesTarget-sym : (s t : PolicyConfigTarget) → SharesTarget s t → SharesTarget t s
SharesTarget-sym s t h = elim h [
  | inl w ↦ inl (Common-sym _ _ w)
  | inr h ↦ elim h [
    | inl n ↦ inr (inl (Common-sym _ _ n))
    | inr h ↦ elim h [
      | inl a ↦ inr (inr (inl (Common-sym _ _ a)))
      | inr r ↦ inr (inr (inr (Common-sym _ _ r)))
    ]
  ]
]

IsApart-sym : (c d : PolicyConfigCrd) → IsApart c d → IsApart d c
IsApart-sym c d (n, h) = (λ e. n (sym e), λ s. h (SharesTarget-sym d.match c.match s))

-- The other configs of a store are apart from one of its configs.
All-IsApart :
    (c : PolicyConfigCrd) (cs : List PolicyConfigCrd)
    → AreApart cs
    → Any (λ d. d ≡ c) cs
    → All (λ d. IsApart d c) (without c.name cs)
All-IsApart c [] _ m = absurd m
All-IsApart c (x ∷ xs) (p, h) (inl e) =
    let named : (x.name == c.name) ≡ true =
      (eq_iff x.name c.name).1 (ap (λ (z : PolicyConfigCrd). z.name) e) in
    rw named (All-without (λ d. IsApart d c) c.name xs (subst (λ z. All (λ d. IsApart d z) xs) e p))
All-IsApart c (x ∷ xs) (p, h) (inr m) = elim (Bool-cases (x.name == c.name)) [
  | inl e ↦ rw e (All-IsApart c xs h m)
  | inr e ↦ rw e (IsApart-sym c x (All-Any (λ d. IsApart d x) c xs p m), All-IsApart c xs h m)
]

-- What takes the place of a config has its name and its targets.
All-IsApart-kept :
    (c u : PolicyConfigCrd) (cs : List PolicyConfigCrd)
    → u.name ≡ c.name
    → u.match ≡ c.match
    → All (λ d. IsApart d c) (without c.name cs)
    → All (λ d. IsApart d u) (without u.name cs)
All-IsApart-kept c u cs named target h =
    subst (λ n. All (λ d. (d.name ≢ n) × (¬ SharesTarget d.match u.match)) (without n cs))
      (sym named)
      (subst (λ t. All (λ d. (d.name ≢ c.name) × (¬ SharesTarget d.match t)) (without c.name cs))
        (sym target) h)

-- A store: every config targets by one kind of target, and every two have different names and no
-- target in common.
pub record IsStore (cs : List PolicyConfigCrd) : Type 0 where
  pub valid : AreValid cs
  pub apart : AreApart cs

-- A config may take the place of the one of its name where the others are apart from it.
IsStore-replaced :
    (d : PolicyConfigCrd) (cs : List PolicyConfigCrd)
    → IsStore cs
    → count_targets d.match ≡ 1
    → All (λ c. IsApart c d) (without d.name cs)
    → IsStore (d ∷ without d.name cs)
IsStore-replaced d cs s one others = record {
  valid = (one, All-without (λ c. count_targets c.match ≡ 1) d.name cs s.valid);
  apart = (others, AreApart-without d.name cs s.apart);
}

-- Every step keeps a store one.
pub Stored-IsStore : {cs : List PolicyConfigCrd} → Stored cs → IsStore cs
Stored-IsStore empty = record { valid = tt; apart = tt }
Stored-IsStore (admitted {cs} d r taken) =
    let s = Stored-IsStore r in
    let (one, apart) = (handle-allowed_iff d cs s.valid).0 taken in
    IsStore-replaced d cs s one (StandsApart-without d cs apart)
Stored-IsStore (reconciled {cs} c u get patch r m e) =
    let s = Stored-IsStore r in
    let (named, target) = reconcile-kept get c u patch e in
    subst (λ n. IsStore (u ∷ without n cs)) named
      (IsStore-replaced u cs s
        (subst (λ t. count_targets t ≡ 1) (sym target)
          (All-Any (λ d. count_targets d.match ≡ 1) c cs s.valid m))
        (All-IsApart-kept c u cs named target (All-IsApart c cs s.apart m)))
Stored-IsStore (removed {cs} name r) =
    let s = Stored-IsStore r in
    record {
      valid = All-without (λ c. count_targets c.match ≡ 1) name cs s.valid;
      apart = AreApart-without name cs s.apart;
    }

without-absent :
    (d : PolicyConfigCrd) (cs : List PolicyConfigCrd)
    → All (λ c. IsApart c d) cs
    → without d.name cs ≡ cs
without-absent d [] h = refl
without-absent d (c ∷ cs) ((other, _), h) = elim (Bool-cases (c.name == d.name)) [
  | inl e ↦ absurd (other ((eq_iff c.name d.name).0 e))
  | inr e ↦ rw e (ap (λ (l : List PolicyConfigCrd). c ∷ l) (without-absent d cs h))
]

All-StandsApart :
    (d : PolicyConfigCrd) (cs : List PolicyConfigCrd) → All (λ c. IsApart c d) cs → StandsApart d cs
All-StandsApart d [] h = tt
All-StandsApart d (c ∷ cs) ((_, apart), h) = (inr apart, All-StandsApart d cs h)

-- A store is built by admitting its configs, the last one first.
IsStore-Stored : (cs : List PolicyConfigCrd) → AreValid cs → AreApart cs → Stored cs
IsStore-Stored [] valid apart = empty
IsStore-Stored (c ∷ cs) (one, valid) (others, apart) =
    subst (λ (l : List PolicyConfigCrd). Stored (c ∷ l)) (without-absent c cs others)
      (admitted c (IsStore-Stored cs valid apart)
        ((handle-allowed_iff c cs valid).1 (one, All-StandsApart c cs others)))

-- The stores that creations, updates, reconciliations and deletions lead to, in whatever sequence, are
-- exactly those in which every config targets by exactly one kind of target, and any two configs have
-- different names and no workspace, namespace, application or resource in common.
pub Stored-IsStore_iff : (cs : List PolicyConfigCrd) → Stored cs ↔ IsStore cs
Stored-IsStore_iff cs = (λ r. Stored-IsStore r, λ s. IsStore-Stored cs s.valid s.apart)
