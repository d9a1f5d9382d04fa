-- ===== src/Controller/Loop/Settling.antt =====
-- The control loop of controllers/policyconfig_controller.go can always work off its requests.
use mathlib.Core.List.{append-nil}
use policy_agent.Prelude.{
  Map, lookup, map, String, Bool, false, List, [], ◌∷◌, ◌++◌, Option, none, some, Result, ok, ◌≡◌,
  inl, inr, refl, sym, ap, subst, ◌∙◌, Bool-cases, Member, Option-cases,
}
use policy_agent.Api.{PolicyConfigCrd, PolicyCrd, set_policy_config_status}
use policy_agent.Controller.{Answer, index_keys}
use policy_agent.Controller.Reconciliation.{missing_policies-AreMissing, reconcile-patch}
use policy_agent.Controller.Loop.{
  Running, Cluster, nothing, store, patch_stored, begin, gone, patches, ends, here, next,
}
use policy_agent.Controller.Loop.Statuses.{store-hit, IsAccurate}
use policy_agent.Controller.Loop.Accuracy.{Reach-IsAccurate}
use policy_agent.Controller.Loop.Worker.{
  Answers, Answers-IsDefinite, Answers-AnswersFor, Keeps, Keeps-refl, Keeps-trans, accept,
  reconcile-deleting, Leads, Served, Reach-append, store-Keeps, round,
}

-- The config of a name, if there is one, is accurate.
abbrev pub IsSettled : (String → Bool) → Option PolicyConfigCrd → Type 0
IsSettled policies none = Unit
IsSettled policies (some c) = IsAccurate policies c

module _ (list_by_policy : Map PolicyConfigCrd → String → Result (List PolicyConfigCrd))
    (apply_patch : PolicyConfigCrd → PolicyConfigCrd → PolicyConfigCrd → PolicyConfigCrd)
    (patched : (c u : PolicyConfigCrd) → u ≡ record c { status = u.status } → apply_patch c u c ≡ u)
    (only_status : (c u d : PolicyConfigCrd)
      → apply_patch c u d ≡ record d { status = (apply_patch c u d).status }) where
  -- The first patch requests the config once more, and the second one changes nothing.
  serve_patched :
      (s : Cluster) (get : String → Answer PolicyCrd) (name : String) (rest : List String)
      (c : PolicyConfigCrd)
      → Answers s.policies get
      → s.running ≡ none
      → s.queue ≡ name ∷ rest
      → lookup name s.configs ≡ some c
      → c.deleting ≡ false
      → Served list_by_policy apply_patch patched only_status s rest
  unfolding index_keys set_policy_config_status
  serve_patched s get name rest c answers quiet listed there stays =
      let (ms, e, _) =
        missing_policies-AreMissing get (index_keys c)
          (Answers-IsDefinite s.policies get (index_keys c) answers) in
      let u : PolicyConfigCrd = set_policy_config_status ms c in
      let first =
        round list_by_policy apply_patch patched only_status s get [] rest (name ∷ []) name c u
          answers quiet listed there (reconcile-patch get c accept ms stays e refl) (inl refl) in
      let middle : Cluster = record s {
        configs =
            store name (patch_stored list_by_policy apply_patch c u (lookup name s.configs))
              s.configs;
        queue = rest ++ name ∷ [];
        running = none;
      } in
      let stored : lookup name middle.configs ≡ some u =
        store-hit name name _ s.configs refl
        ∙ ap (patch_stored list_by_policy apply_patch c u) there
        ∙ ap some (patched c u refl) in
      let again =
        round list_by_policy apply_patch patched only_status middle get rest [] [] name u u answers
          refl refl stored (reconcile-patch get u accept ms stays e refl)
          (inr (
            refl,
            subst (λ o. patch_stored list_by_policy apply_patch u u o ≡ o) (sym stored)
                (ap some (patched u u refl)),
          )) in
      record {
        after = _;
        run = Reach-append list_by_policy apply_patch patched only_status first again;
        queue_is = append-nil (rest ++ []) ∙ append-nil rest;
        idle = refl;
        same_policies = refl;
        keeps = λ n.
            Keeps-trans (lookup n s.configs) (lookup n middle.configs) _
              (store-Keeps list_by_policy apply_patch patched only_status s.configs name c u n)
              (store-Keeps list_by_policy apply_patch patched only_status middle.configs name u u
                n);
      }

  serve :
      (s : Cluster) (get : String → Answer PolicyCrd) (name : String) (rest : List String)
      → Answers s.policies get
      → s.running ≡ none
      → s.queue ≡ name ∷ rest
      → Served list_by_policy apply_patch patched only_status s rest
  serve s get name rest answers quiet listed = elim (Option-cases (lookup name s.configs)) [
    | inl absent ↦ record {
      after = record s { queue = rest };
      run = next here (gone [] rest name quiet listed absent refl);
      queue_is = refl;
      idle = quiet;
      same_policies = refl;
      keeps = λ n. Keeps-refl (lookup n s.configs);
    }
    | inr (c, there) ↦ elim (Bool-cases c.deleting) [
      | inl leaving ↦
          let r : Running = record { name = name; config = c; touched = [] } in
          record {
            after = record s { queue = rest; running = none };
            run = next (next here (begin [] rest name c quiet listed there refl)) (
                ends r get accept refl (Answers-AnswersFor s [] get answers)
                  (reconcile-deleting c get leaving) refl);
            queue_is = refl;
            idle = refl;
            same_policies = refl;
            keeps = λ n. Keeps-refl (lookup n s.configs);
          }
      | inr stays ↦ serve_patched s get name rest c answers quiet listed there stays
    ]
  ]

  drain :
      (q : List String) (s : Cluster) (get : String → Answer PolicyCrd)
      → Answers s.policies get
      → s.running ≡ none
      → s.queue ≡ q
      → Served list_by_policy apply_patch patched only_status s []
  drain [] s get answers quiet listed = record {
    after = s;
    run = here;
    queue_is = listed;
    idle = quiet;
    same_policies = refl;
    keeps = λ n. Keeps-refl (lookup n s.configs);
  }
  drain (name ∷ rest) s get answers quiet listed =
      let one = serve s get name rest answers quiet listed in
      let all =
        drain rest one.after get (subst (λ z. Answers z get) (sym one.same_policies) answers)
          one.idle one.queue_is in
      record {
        after = all.after;
        run = Reach-append list_by_policy apply_patch patched only_status one.run all.run;
        queue_is = all.queue_is;
        idle = all.idle;
        same_policies = all.same_policies ∙ one.same_policies;
        keeps = λ n.
            Keeps-trans (lookup n s.configs) (lookup n one.after.configs)
              (lookup n all.after.configs) (one.keeps n) (all.keeps n);
      }

  -- The worker can come to the end of a request.
  finish :
      (s : Cluster) (get : String → Answer PolicyCrd)
      → Answers s.policies get
      → (t : Cluster) × Leads list_by_policy apply_patch patched only_status s t
        × (t.running ≡ none)
        × (t.policies ≡ s.policies)
        × ((n : String) → Keeps (lookup n s.configs) (lookup n t.configs))
  finish s get answers = elim (Option-cases s.running) [
    | inl quiet ↦ (s, here, quiet, refl, λ n. Keeps-refl (lookup n s.configs))
    | inr (r, busy) ↦ elim (Bool-cases r.config.deleting) [
      | inl leaving ↦ (
        record s { running = none },
        next here (
            ends r get accept busy (Answers-AnswersFor s r.touched get answers)
              (reconcile-deleting r.config get leaving) refl),
        refl,
        refl,
        λ n. Keeps-refl (lookup n s.configs),
      )
      | inr stays ↦
          let (ms, e, _) =
            missing_policies-AreMissing get (index_keys r.config)
              (Answers-IsDefinite s.policies get (index_keys r.config) answers) in
          (
            _,
            next here (
                patches r get accept (set_policy_config_status ms r.config) (r.name ∷ []) busy
                  (Answers-AnswersFor s r.touched get answers)
                  (reconcile-patch get r.config accept ms stays e refl) (inl refl) refl),
            refl,
            refl,
            store-Keeps list_by_policy apply_patch patched only_status s.configs r.name r.config
                (set_policy_config_status ms r.config),
          )
    ]
  ]

  module _
      (indexed : (configs : Map PolicyConfigCrd) (name id : String) (c : PolicyConfigCrd)
        → lookup name configs ≡ some c
        → Member id (index_keys c)
        → (fs : List PolicyConfigCrd) × (list_by_policy configs id ≡ ok fs)
          × Member name (map (λ (z : PolicyConfigCrd). z.name) fs)) where
    quiet-IsSettled :
        (s : Cluster) (name : String) (o : Option PolicyConfigCrd)
        → Leads list_by_policy apply_patch patched only_status nothing s
        → s.queue ≡ []
        → s.running ≡ none
        → lookup name s.configs ≡ o
        → IsSettled s.policies o
    quiet-IsSettled s name none run idle quiet there = tt
    quiet-IsSettled s name (some c) run idle quiet there =
        Reach-IsAccurate list_by_policy apply_patch indexed patched s name c run idle quiet there

    -- From every state that the control loop can come to, where the API server answers as the cluster
    -- is, steps lead on to a state in which no request waits and none is worked on, the policies are
    -- the same, every config is still there with nothing but its status changed, and the status of
    -- every config that is not being deleted is accurate.
    pub Reach-settles :
        (s : Cluster) (get : String → Answer PolicyCrd)
        → Leads list_by_policy apply_patch patched only_status nothing s
        → Answers s.policies get
        → (t : Cluster) × Leads list_by_policy apply_patch patched only_status s t
          × (t.queue ≡ [])
          × (t.running ≡ none)
          × (t.policies ≡ s.policies)
          × ((name : String) → Keeps (lookup name s.configs) (lookup name t.configs))
          × ((name : String) → IsSettled t.policies (lookup name t.configs))
    Reach-settles s get reached answers =
        let (u, first, quiet, same, keeps) = finish s get answers in
        let all = drain u.queue u get (subst (λ z. Answers z get) (sym same) answers) quiet refl in
        let run = Reach-append list_by_policy apply_patch patched only_status first all.run in
        (
          all.after,
          run,
          all.queue_is,
          all.idle,
          all.same_policies ∙ same,
          λ name.
              Keeps-trans (lookup name s.configs) (lookup name u.configs)
                (lookup name all.after.configs) (keeps name) (all.keeps name),
          λ name.
              quiet-IsSettled all.after name (lookup name all.after.configs)
                (Reach-append list_by_policy apply_patch patched only_status reached run)
                all.queue_is all.idle refl,
        )
