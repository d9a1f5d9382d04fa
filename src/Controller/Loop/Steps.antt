-- ===== src/Controller/Loop/Steps.antt =====
-- The steps of the control loop up to the start of `Reconcile`, and its end, keep track of every
-- config (controllers/policyconfig_controller.go).
use policy_agent.Prelude.{
  Map, lookup, String, Bool, List, [], ◌∷◌, ◌++◌, Option, none, some, Result, ok, ◌≡◌, ◌≢◌, ◌⊎◌,
  inl, inr, refl, sym, ap, subst, ◌∙◌, Bool-cases, Member, contains, contains_iff, map, arith,
}
use policy_agent.Api.{PolicyConfigCrd}
use policy_agent.Controller.{index_keys, requests_for}
use policy_agent.Controller.Loop.{Running, Cluster, touch, set_at, store}
use policy_agent.Controller.Loop.Statuses.{
  IsAccurate, IsUnderway, IsIdle, IsTracked, AreTracked, store-miss, String-cases, HasStatus-set_at,
  touch-IsIdle, Member-left, Member-right, Member-removed,
}

-- A config that the index finds is requested.
requests_for-Member :
    (list_by_policy : String → Result (List PolicyConfigCrd)) (id name : String)
    (fs : List PolicyConfigCrd)
    → list_by_policy id ≡ ok fs
    → Member name (map (λ (z : PolicyConfigCrd). z.name) fs)
    → Member name (requests_for list_by_policy id)
unfolding requests_for
requests_for-Member list_by_policy id name fs e m = rw (e, requests_for) m

module _ (list_by_policy : Map PolicyConfigCrd → String → Result (List PolicyConfigCrd))
    (apply_patch : PolicyConfigCrd → PolicyConfigCrd → PolicyConfigCrd → PolicyConfigCrd)
    (indexed : (configs : Map PolicyConfigCrd) (name id : String) (c : PolicyConfigCrd)
      → lookup name configs ≡ some c
      → Member id (index_keys c)
      → (fs : List PolicyConfigCrd) × (list_by_policy configs id ≡ ok fs)
        × Member name (map (λ (z : PolicyConfigCrd). z.name) fs))
    (patched : (c u : PolicyConfigCrd)
      → u ≡ record c { status = u.status }
      → apply_patch c u c ≡ u) where
  pub policy_event-IsTracked :
      (s : Cluster) (id : String) (exists : Bool) (name : String) (c : PolicyConfigCrd)
      → lookup name s.configs ≡ some c
      → IsTracked s name c
      → IsTracked
          (record s {
            policies = set_at id exists s.policies;
            queue = s.queue ++ requests_for (list_by_policy s.configs) id;
            running = touch id s.running;
          })
          name
          c
  policy_event-IsTracked s id exists name c there tracked =
      elim (Bool-cases (contains id (index_keys c))) [
        | inl e ↦
            let (fs, answer, m) =
              indexed s.configs name id c there ((contains_iff id (index_keys c)).0 e) in
            inl (
              Member-right name s.queue _
                (requests_for-Member (list_by_policy s.configs) id name fs answer m))
        | inr e ↦
            let n : ¬ Member id (index_keys c) =
              λ m. absurd (ground (arith, (contains_iff id (index_keys c)).1 m)) in
            elim tracked [
              | inl m ↦ inl (Member-left name s.queue _ m)
              | inr k ↦ elim k [
                | inl u ↦ inr (
                    inl (record {
                      running = record u.running { touched = id ∷ u.running.touched };
                      is_running = ap (touch id) u.is_running;
                      same_name = u.same_name;
                      same_config = u.same_config;
                      untouched = λ x m. elim m [
                        | inl e ↦ λ k. n (subst (λ z. Member z (index_keys c)) e k)
                        | inr m ↦ u.untouched x m
                      ];
                    }))
                | inr (idle, a) ↦ inr (
                    inr (
                      touch-IsIdle id name s.running idle,
                      elim a [
                        | inl d ↦ inl d
                        | inr h ↦ inr (HasStatus-set_at s.policies id exists c n h)
                      ],
                    ))
              ]
            ]
      ]

  -- With more requests and nothing else changed, a config stays tracked.
  pub IsTracked-more :
      (s t : Cluster) (name : String) (c : PolicyConfigCrd)
      → t.policies ≡ s.policies
      → t.running ≡ s.running
      → (Member name s.queue → Member name t.queue)
      → IsTracked s name c
      → IsTracked t name c
  IsTracked-more s t name c p r q tracked = elim tracked [
    | inl m ↦ inl (q m)
    | inr k ↦ elim k [
      | inl u ↦ inr (
          inl (record {
            running = u.running;
            is_running = r ∙ u.is_running;
            same_name = u.same_name;
            same_config = u.same_config;
            untouched = u.untouched;
          }))
      | inr (idle, a) ↦ inr (inr (λ x e. idle x (sym r ∙ e), subst (λ z. IsAccurate z c) (sym p) a))
    ]
  ]

  pub config_event-IsTracked :
      (s : Cluster) (name : String) (config : Option PolicyConfigCrd)
      → AreTracked s
      → AreTracked
          (record s { configs = store name config s.configs; queue = s.queue ++ name ∷ [] })
  config_event-IsTracked s name config h n c there = elim (String-cases n name) [
    | inl e ↦ inl (Member-right n s.queue (name ∷ []) (inl e))
    | inr o ↦
        IsTracked-more s _ n c refl refl (Member-left n s.queue (name ∷ []))
          (h n c (sym (store-miss name n config s.configs o) ∙ there))
  ]

  pub begin-IsTracked :
      (s : Cluster) (before after : List String) (name : String) (c : PolicyConfigCrd)
      → s.running ≡ none
      → s.queue ≡ before ++ name ∷ after
      → lookup name s.configs ≡ some c
      → AreTracked s
      → AreTracked (record s {
        queue = before ++ after;
        running = some (record { name = name; config = c; touched = [] });
      })
  begin-IsTracked s before after name c quiet listed there h n d other =
      elim (String-cases n name) [
        | inl e ↦
            let same : c ≡ d = ground arith in
            inr (
              inl (record {
                running = record { name = name; config = c; touched = [] };
                is_running = refl;
                same_name = sym e;
                same_config = same;
                untouched = λ id m. absurd m;
              }))
        | inr o ↦ elim (h n d other) [
          | inl m ↦ inl (Member-removed n name before after o (subst (λ q. Member n q) listed m))
          | inr k ↦ elim k [
            | inl u ↦ let e = u.is_running in absurd (cc)
            | inr (idle, a) ↦ inr (
                inr (λ r e q. o (let named : name ≡ r.name = ground arith in sym q ∙ sym named), a))
          ]
        ]
      ]

  pub gone-IsTracked :
      (s : Cluster) (before after : List String) (name : String)
      → s.queue ≡ before ++ name ∷ after
      → lookup name s.configs ≡ none
      → AreTracked s
      → AreTracked (record s { queue = before ++ after })
  gone-IsTracked s before after name listed absent h n d other =
      let o : n ≢ name = λ e. absurd (ground arith) in
      IsTracked-more s _ n d refl refl
        (λ m. Member-removed n name before after o (subst (λ q. Member n q) listed m)) (h n d other)

  -- The worker is done with a request.
  pub ended-IsTracked :
      (s : Cluster) (r : Running) (name : String) (c d : PolicyConfigCrd) (queue : List String)
      (configs : Map PolicyConfigCrd)
      → s.running ≡ some r
      → (Member name s.queue → Member name queue)
      → (IsUnderway s name c → Member name queue ⊎ IsAccurate s.policies d)
      → (IsIdle s name → IsAccurate s.policies c → IsAccurate s.policies d)
      → IsTracked s name c
      → IsTracked (record s { configs = configs; queue = queue; running = none }) name d
  ended-IsTracked s r name c d queue configs busy kept done rest tracked = elim tracked [
    | inl m ↦ inl (kept m)
    | inr k ↦ elim k [
      | inl u ↦ elim (done u) [ inl m ↦ inl m | inr a ↦ inr (inr (λ x e. absurd (cc), a)) ]
      | inr (idle, a) ↦ inr (inr (λ x e. absurd (cc), rest idle a))
    ]
  ]
