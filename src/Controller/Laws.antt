-- ===== src/Controller/Laws.antt =====
-- Policy configs that are admitted do not share a target, and their status names the policies that
-- are missing (controllers/policyconfig_controller.go).
use policy_agent.Prelude.{
  ◌+◌, Option-cases, String, List, [], ◌∷◌, Option, none, some, ok, ◌≡◌, refl, ◌↔◌, ◌⊎◌, inl, inr,
  arith, All, Any, Member, contains, contains_iff, Bool-cases, ◌==◌, Result-cases, eq_iff, subst,
}
use policy_agent.Api.{PolicyConfigCrd, PolicyConfigTarget, ObjectTarget, elements, validate_config}
use policy_agent.Api.Laws.{count_targets, is_set, validate_config_iff}
use policy_agent.Controller.{
  first_overlap, overlap_by, ids_of, check_target_overlap, denied, allowed, check_configs, handle,
}

-- Two lists of ids have an element in common.
abbrev pub Common : List String → List String → Type 0
Common xs ys = Any (λ y. Member y xs) ys

pub Common-both : (x : String) (xs ys : List String) → Member x xs → Member x ys → Common xs ys
Common-both x xs [] m h = absurd h
Common-both x xs (y ∷ ys) m (inl e) = inl (subst (λ z. Member z xs) e m)
Common-both x xs (y ∷ ys) m (inr n) = inr (Common-both x xs ys m n)

Common-Common : (xs ys : List String) → Common xs ys → (x : String) × Member x xs × Member x ys
Common-Common xs [] h = absurd h
Common-Common xs (y ∷ ys) (inl m) = (y, m, inl refl)
Common-Common xs (y ∷ ys) (inr h) = let (x, m, n) = Common-Common xs ys h in (x, m, inr n)

pub Common-sym : (xs ys : List String) → Common xs ys → Common ys xs
Common-sym xs ys h = let (x, m, n) = Common-Common xs ys h in Common-both x ys xs n m

-- Two configs share a workspace, a namespace, an application or a resource.
abbrev pub SharesTarget : PolicyConfigTarget → PolicyConfigTarget → Type 0
SharesTarget s t =
    Common (elements s.workspaces) (elements t.workspaces)
    ⊎ Common (elements s.namespaces) (elements t.namespaces)
    ⊎ Common (elements (ids_of s.applications)) (elements (ids_of t.applications))
    ⊎ Common (elements (ids_of s.resources)) (elements (ids_of t.resources))

first_overlap_iff :
    (kind name : String) (xs ys : List String)
    → (first_overlap kind name xs ys ≡ none) ↔ (¬ Common xs ys)
unfolding first_overlap
first_overlap_iff kind name xs [] = (λ _ a. a, λ _. refl)
first_overlap_iff kind name xs (y ∷ ys) = elim (Bool-cases (contains y xs)) [
  | inl e ↦ (λ h. absurd (ground arith), λ n. absurd (n (inl ((contains_iff y xs).0 e))))
  | inr e ↦
      let (to, from) = first_overlap_iff kind name xs ys in
      (
        λ h c. elim c [
          | inl m ↦ absurd (ground (arith, (contains_iff y xs).1 m))
          | inr r ↦ to (rw (e, first_overlap) at h) r
        ],
        λ n. rw (e, first_overlap) (from (λ r. n (inr r))),
      )
]

overlap_by_iff :
    (kind name : String) (xs : List String) (ys : Option (List String))
    → (overlap_by kind name xs ys ≡ none) ↔ (¬ Common xs (elements ys))
unfolding overlap_by
overlap_by_iff kind name xs none = (λ _ a. a, λ _. refl)
overlap_by_iff kind name xs (some ys) = first_overlap_iff kind name xs ys

not-Common-nil : (ys : List String) → ¬ Common [] ys
not-Common-nil [] c = c
not-Common-nil (y ∷ ys) c = elim c [ inl m ↦ m | inr r ↦ not-Common-nil ys r ]

only_first : {A B C D : Type 0} → ¬ B → ¬ C → ¬ D → (¬ A) ↔ (¬ (A ⊎ B ⊎ C ⊎ D))
only_first b c d = (
  λ n s. elim s [
    | inl x ↦ n x
    | inr t ↦ elim t [ inl x ↦ b x | inr u ↦ elim u [ inl x ↦ c x | inr x ↦ d x ] ]
  ],
  λ n x. n (inl x),
)

only_second : {A B C D : Type 0} → ¬ A → ¬ C → ¬ D → (¬ B) ↔ (¬ (A ⊎ B ⊎ C ⊎ D))
only_second a c d = (
  λ n s. elim s [
    | inl x ↦ a x
    | inr t ↦ elim t [ inl x ↦ n x | inr u ↦ elim u [ inl x ↦ c x | inr x ↦ d x ] ]
  ],
  λ n x. n (inr (inl x)),
)

only_third : {A B C D : Type 0} → ¬ A → ¬ B → ¬ D → (¬ C) ↔ (¬ (A ⊎ B ⊎ C ⊎ D))
only_third a b d = (
  λ n s. elim s [
    | inl x ↦ a x
    | inr t ↦ elim t [ inl x ↦ b x | inr u ↦ elim u [ inl x ↦ n x | inr x ↦ d x ] ]
  ],
  λ n x. n (inr (inr (inl x))),
)

only_fourth : {A B C D : Type 0} → ¬ A → ¬ B → ¬ C → (¬ D) ↔ (¬ (A ⊎ B ⊎ C ⊎ D))
only_fourth a b c = (
  λ n s. elim s [
    | inl x ↦ a x
    | inr t ↦ elim t [ inl x ↦ b x | inr u ↦ elim u [ inl x ↦ c x | inr x ↦ n x ] ]
  ],
  λ n x. n (inr (inr (inr x))),
)

iff_trans : {A B C : Type 0} → A ↔ B → B ↔ C → A ↔ C
iff_trans p q = (λ a. q.0 (p.0 a), λ c. p.1 (q.1 c))

-- Where the stored config targets by one kind of target, no overlap is reported exactly when the two
-- configs share no target of any kind.
pub check_target_overlap_iff :
    (c d : PolicyConfigCrd)
    → count_targets c.match ≡ 1
    → (check_target_overlap c d ≡ none) ↔ (¬ SharesTarget c.match d.match)
unfolding check_target_overlap
check_target_overlap_iff c d one =
    by_target c.match.workspaces c.match.namespaces c.match.applications c.match.resources one
  where
    new : PolicyConfigTarget
    new = d.match

    by_target :
        (w n : Option (List String)) (a r : Option (List ObjectTarget))
        → is_set w + is_set n + is_set a + is_set r ≡ 1
        → let t : PolicyConfigTarget = record {
          workspaces = w;
          namespaces = n;
          applications = a;
          resources = r;
        } in
          (check_target_overlap (record c { match = t }) d ≡ none) ↔ (¬ SharesTarget t d.match)
    by_target (some w) none none none h =
        iff_trans (overlap_by_iff _ c.name w new.workspaces)
          (only_first (not-Common-nil _) (not-Common-nil _) (not-Common-nil _))
    by_target none (some n) none none h =
        iff_trans (overlap_by_iff _ c.name n new.namespaces)
          (only_second (not-Common-nil _) (not-Common-nil _) (not-Common-nil _))
    by_target none none (some a) none h =
        iff_trans (overlap_by_iff _ c.name _ (ids_of new.applications))
          (only_third (not-Common-nil _) (not-Common-nil _) (not-Common-nil _))
    by_target none none none (some r) h =
        iff_trans (overlap_by_iff _ c.name _ (ids_of new.resources))
          (only_fourth (not-Common-nil _) (not-Common-nil _) (not-Common-nil _))
    by_target _ _ _ _ h = absurd (omega arith)

-- Every stored config targets by one kind of target, as `Validate` demands.
abbrev pub AreValid : List PolicyConfigCrd → Type 0
AreValid = All (λ c. count_targets c.match ≡ 1)

-- The new config has no target in common with a config of another name.
abbrev pub StandsApart : PolicyConfigCrd → List PolicyConfigCrd → Type 0
StandsApart d = All (λ c. (c.name ≡ d.name) ⊎ (¬ SharesTarget c.match d.match))

check_configs_iff :
    (d : PolicyConfigCrd) (cs : List PolicyConfigCrd)
    → AreValid cs
    → (check_configs d cs ≡ allowed) ↔ StandsApart d cs
unfolding check_configs
check_configs_iff d [] h = (λ _. tt, λ _. refl)
check_configs_iff d (c ∷ cs) (one, h) =
    let (to, from) = check_configs_iff d cs h in
    let (apart, free) = check_target_overlap_iff c d one in
    elim (Bool-cases (c.name == d.name)) [
      | inl same ↦
          let step : check_configs d (c ∷ cs) ≡ check_configs d cs = ground arith in
          rw step (λ e. (inl ((eq_iff c.name d.name).0 same), to e), λ a. from a.1)
      | inr other ↦ elim (Option-cases (check_target_overlap c d)) [
        | inl clear ↦
            let step : check_configs d (c ∷ cs) ≡ check_configs d cs = ground arith in
            rw step (λ e. (inr (apart clear), to e), λ a. from a.1)
        | inr (e, clash) ↦
            let step : check_configs d (c ∷ cs) ≡ denied e = ground arith in
            rw step (
              λ q. absurd (cc),
              λ a. elim a.0 [
                | inl n ↦ absurd (ground (arith, eq_iff c.name d.name))
                | inr n ↦ absurd (ground (arith, free n))
              ],
            )
      ]
    ]

-- If every stored config is valid, a new or changed config is admitted exactly when it targets by one
-- kind of target and shares no target with a stored config of another name.
pub handle-allowed_iff :
    (d : PolicyConfigCrd) (cs : List PolicyConfigCrd)
    → AreValid cs
    → (handle (ok d) (ok cs) ≡ allowed) ↔ ((count_targets d.match ≡ 1) × StandsApart d cs)
unfolding handle
handle-allowed_iff d cs h =
    let (valid, accepted) = validate_config_iff d in
    let (to, from) = check_configs_iff d cs h in
    elim (Result-cases (validate_config d)) [
      | inr (e, bad) ↦ (λ q. absurd (ground arith), λ a. absurd (ground (arith, accepted a.0)))
      | inl (tt, good) ↦
          let step : handle (ok d) (ok cs) ≡ check_configs d cs = ground arith in
          rw step (λ e. (valid good, to e), λ a. from a.1)
    ]
