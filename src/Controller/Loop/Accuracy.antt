-- ===== src/Controller/Loop/Accuracy.antt =====
-- What the control loop of controllers/policyconfig_controller.go comes to.
use policy_agent.Prelude.{
  Map, lookup, String, List, [], ◌∷◌, ◌++◌, Option, none, some, Result, ok, ◌≡◌, inl, inr, sym, ap,
  subst, ◌∙◌, Member, map, arith, Option-cases,
}
use policy_agent.Api.{PolicyConfigCrd, PolicyCrd, set_policy_config_status}
use policy_agent.Controller.{Answer, found, reconcile, index_keys}
use policy_agent.Controller.Reconciliation.{reconcile-some, reconcile-none}
use policy_agent.Controller.Loop.{
  Running, Cluster, nothing, store, AnswersFor, patch_stored, LoopStep, policy_event, config_event,
  begin, gone, patches, ends, fails, Reach, here, next,
}
use policy_agent.Controller.Loop.Statuses.{
  HasStatus, IsAccurate, IsUnderway, AreTracked, store-hit, store-miss, String-cases,
  patches-HasStatus, Member-left, Member-right,
}
use policy_agent.Controller.Loop.Steps.{
  policy_event-IsTracked, config_event-IsTracked, begin-IsTracked, gone-IsTracked, ended-IsTracked,
}

module _ (list_by_policy : Map PolicyConfigCrd → String → Result (List PolicyConfigCrd))
    (apply_patch : PolicyConfigCrd → PolicyConfigCrd → PolicyConfigCrd → PolicyConfigCrd)
    (indexed : (configs : Map PolicyConfigCrd) (name id : String) (c : PolicyConfigCrd)
      → lookup name configs ≡ some c
      → Member id (index_keys c)
      → (fs : List PolicyConfigCrd) × (list_by_policy configs id ≡ ok fs)
        × Member name (map (λ (z : PolicyConfigCrd). z.name) fs))
    (patched : (c u : PolicyConfigCrd)
      → u ≡ record c { status = u.status }
      → apply_patch c u c ≡ u) where
  -- What the worker is busy with.
  underway_is :
      (s : Cluster) (r : Running) (name : String) (c : PolicyConfigCrd)
      → s.running ≡ some r
      → IsUnderway s name c
      → (r.name ≡ name)
        × (r.config ≡ c)
        × ((id : String) → Member id r.touched → ¬ Member id (index_keys c))
  underway_is s r name c busy u =
      let e = u.is_running in
      let same : u.running ≡ r = cc in
      (
        ap (λ (q : Running). q.name) (sym same) ∙ u.same_name,
        ap (λ (q : Running). q.config) (sym same) ∙ u.same_config,
        subst (λ (q : Running). (id : String) → Member id q.touched → ¬ Member id (index_keys c))
            same u.untouched,
      )

  patched_is :
      (c q u d : PolicyConfigCrd) {o : Option PolicyConfigCrd}
      → q ≡ c
      → apply_patch c u c ≡ u
      → o ≡ some c
      → patch_stored list_by_policy apply_patch q u o ≡ some d
      → u ≡ d
  patched_is c q u d as_read result stored now = ground arith

  patches-IsTracked :
      (s : Cluster) (r : Running) (get : String → Answer PolicyCrd)
      (patch : PolicyConfigCrd → Result (Unit {0})) (u : PolicyConfigCrd) (again : List String)
      → s.running ≡ some r
      → AnswersFor s r.touched get
      → reconcile (found r.config) get patch ≡ ok (some u)
      → AreTracked s
      → AreTracked (record s {
        configs =
            store r.name
              (patch_stored list_by_policy apply_patch r.config u (lookup r.name s.configs))
              s.configs;
        queue = s.queue ++ again;
        running = none;
      })
  unfolding set_policy_config_status
  patches-IsTracked s r get patch u again busy answers e h n d there =
      elim (String-cases n r.name) [
        | inr o ↦
            let stored = sym (store-miss r.name n _ s.configs o) ∙ there in
            ended-IsTracked list_by_policy apply_patch indexed patched s r n d d _ _ busy
              (Member-left n s.queue again) (λ w. absurd (o (sym (underway_is s r n d busy w).0)))
              (λ _ a. a) (h n d stored)
        | inl same ↦
            let now : patch_stored list_by_policy apply_patch r.config u (lookup r.name s.configs)
                ≡ some d =
              sym (store-hit r.name n _ s.configs same) ∙ there in
            elim (Option-cases (lookup r.name s.configs)) [
              | inl absent ↦ absurd (ground arith)
              | inr (c, stored) ↦
                  ended-IsTracked list_by_policy apply_patch indexed patched s r n c d _ _ busy
                    (Member-left n s.queue again)
                    (λ w.
                      let (_, as_read, untouched) = underway_is s r n c busy w in
                      let told =
                        subst (λ z. reconcile (found z) get patch ≡ ok (some u)) as_read e in
                      let accurate =
                        patches-HasStatus s r.touched c u get patch answers untouched told in
                      let (ms, _, made) = reconcile-some get c u patch told in
                      let result : apply_patch c u c ≡ u = patched c u (
                        made
                        ∙ ap (λ st. record c { status = st })
                            (sym (ap (λ (z : PolicyConfigCrd). z.status) made))) in
                      let is_u : u ≡ d = patched_is c r.config u d as_read result stored now in
                      inr (inr (subst (λ z. HasStatus s.policies z) is_u accurate)))
                    (λ idle _. absurd (idle r busy (sym same)))
                    (h n c (ap (λ z. lookup z s.configs) same ∙ stored))
            ]
      ]

  ends-IsTracked :
      (s : Cluster) (r : Running) (get : String → Answer PolicyCrd)
      (patch : PolicyConfigCrd → Result (Unit {0}))
      → s.running ≡ some r
      → reconcile (found r.config) get patch ≡ ok none
      → AreTracked s
      → AreTracked (record s { running = none })
  ends-IsTracked s r get patch busy e h n d there =
      ended-IsTracked list_by_policy apply_patch indexed patched s r n d d s.queue s.configs busy
        (λ m. m)
        (λ w.
          let (_, as_read, _) = underway_is s r n d busy w in
          inr (
            inl (
              ap (λ (z : PolicyConfigCrd). z.deleting) (sym as_read)
              ∙ reconcile-none get r.config patch e)))
        (λ _ a. a) (h n d there)

  fails-IsTracked :
      (s : Cluster) (r : Running)
      → s.running ≡ some r
      → AreTracked s
      → AreTracked (record s { queue = s.queue ++ r.name ∷ []; running = none })
  fails-IsTracked s r busy h n d there =
      ended-IsTracked list_by_policy apply_patch indexed patched s r n d d _ s.configs busy
        (Member-left n s.queue (r.name ∷ []))
        (λ w. inl (Member-right n s.queue (r.name ∷ []) (inl (sym (underway_is s r n d busy w).0))))
        (λ _ a. a) (h n d there)

  LoopStep-AreTracked :
      {s t : Cluster} → LoopStep list_by_policy apply_patch s t → AreTracked s → AreTracked t
  LoopStep-AreTracked {s} (policy_event id exists e) h = rw e (λ n c there.
      policy_event-IsTracked list_by_policy apply_patch indexed patched s id exists n c there
        (h n c there))
  LoopStep-AreTracked {s} (config_event name config e) h =
      rw e (config_event-IsTracked list_by_policy apply_patch indexed patched s name config h)
  LoopStep-AreTracked {s} (begin before after name c quiet listed there e) h = rw e (
      begin-IsTracked list_by_policy apply_patch indexed patched s before after name c quiet listed
        there h)
  LoopStep-AreTracked {s} (gone before after name quiet listed absent e) h = rw e (
      gone-IsTracked list_by_policy apply_patch indexed patched s before after name listed absent h)
  LoopStep-AreTracked {s} (patches r get patch u again busy answers told _ e) h =
      rw e (patches-IsTracked s r get patch u again busy answers told h)
  LoopStep-AreTracked {s} (ends r get patch busy answers told e) h =
      rw e (ends-IsTracked s r get patch busy told h)
  LoopStep-AreTracked {s} (fails r get patch x busy answers told e) h =
      rw e (fails-IsTracked s r busy h)

  Reach-AreTracked : {s : Cluster} → Reach list_by_policy apply_patch nothing s → AreTracked s
  unfolding lookup
  Reach-AreTracked here = λ n c there. absurd (cc)
  Reach-AreTracked (next run step) = LoopStep-AreTracked step (Reach-AreTracked run)

  -- Whatever sequence of changes to policies and configs, of requests taken, and of answers and
  -- failures leads there, also while `Reconcile` runs: when no request waits and none is worked on,
  -- the status of every config that is not being deleted lists exactly the policies that it
  -- configures and that do not exist, and is a warning exactly if there is one. The field index is
  -- taken to find a config by each of its policies, and a status patch to give the config that it was
  -- made from the status that it was made for.
  pub Reach-IsAccurate :
      (s : Cluster) (name : String) (c : PolicyConfigCrd)
      → Reach list_by_policy apply_patch nothing s
      → s.queue ≡ []
      → s.running ≡ none
      → lookup name s.configs ≡ some c
      → IsAccurate s.policies c
  Reach-IsAccurate s name c run idle quiet there = elim (Reach-AreTracked run name c there) [
    | inl m ↦ absurd (subst (λ q. Member name q) idle m)
    | inr k ↦ elim k [ inl u ↦ let e = u.is_running in absurd (cc) | inr a ↦ a.1 ]
  ]
