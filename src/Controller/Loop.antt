-- ===== src/Controller/Loop.antt =====
-- The control loop of controllers/policyconfig_controller.go: what `SetupWithManager` watches, the
-- queue of requests that the events fill, and `Reconcile`, which one worker runs on one request at a
-- time while events go on. The cache is taken to show what the API server holds.
pub mod Statuses
pub mod Steps
pub mod Accuracy
pub mod Worker
pub mod Settling
use policy_agent.Prelude.{
  String, Bool, true, false, List, [], ◌∷◌, ◌++◌, Option, none, some, Result, ok, err, ◌≡◌, ◌⊎◌,
  if◌then◌else◌, ◌==◌, Member, map, Map, lookup, insert, delete,
}
use policy_agent.Api.{PolicyConfigCrd, PolicyCrd}
use policy_agent.Controller.{Answer, found, not_found, failed, reconcile, index_keys, requests_for}

-- The request that the worker is busy with: the config as `Reconcile` has read it, and the policies
-- that have been created or deleted since.
pub record Running : Type 0 where
  pub name : String
  pub config : PolicyConfigCrd
  pub touched : List String

pub record Cluster : Type 0 where
  pub policies : String → Bool
  pub configs : Map PolicyConfigCrd
  pub queue : List String
  pub running : Option Running

abbrev pub nothing : Cluster
nothing = record { policies = λ id. false; configs = []; queue = []; running = none }

abbrev pub touch : String → Option Running → Option Running
touch id none = none
touch id (some r) = some (record r { touched = id ∷ r.touched })

-- A map with another value at a key.
abbrev pub set_at {ℓ} : {A : Type ℓ} → String → A → (String → A) → String → A
set_at key value m asked = if asked == key then value else m asked

-- The stored configs with another one, or none, under a name.
abbrev pub store : String → Option PolicyConfigCrd → Map PolicyConfigCrd → Map PolicyConfigCrd
store name none m = delete name m
store name (some c) m = insert name c m

-- What the API server answers to a `Get` of `Reconcile` while it runs: the policy as it is now, or
-- as it was before it was touched, or an error.
abbrev pub AnswersFor : Cluster → List String → (String → Answer PolicyCrd) → Type 0
AnswersFor s touched get =
    (id : String)
    → ((get id ≡ not_found) × (s.policies id ≡ false))
      ⊎ ((p : PolicyCrd) × (get id ≡ found p) × (s.policies id ≡ true))
      ⊎ ((e : String) × (get id ≡ failed e))
      ⊎ Member id touched

-- The controller's environment: the field index of the configs, and what a status patch that was
-- made from one config to another does to the stored config.
module _ (list_by_policy : Map PolicyConfigCrd → String → Result (List PolicyConfigCrd))
    (apply_patch : PolicyConfigCrd → PolicyConfigCrd → PolicyConfigCrd → PolicyConfigCrd) where
  abbrev pub patch_stored :
      PolicyConfigCrd → PolicyConfigCrd → Option PolicyConfigCrd → Option PolicyConfigCrd
  patch_stored old new none = none
  patch_stored old new (some c) = some (apply_patch old new c)

  -- A policy is created or deleted, which requests all configs that the index finds for it; a config
  -- is written or deleted, which requests it; the worker takes a request and reads the config, if it
  -- is still there; `Reconcile` patches the config, which requests it once more if that changes it;
  -- it returns without a patch; or it returns an error, and the request is put back.
  pub data LoopStep (s t : Cluster) : Type 0 where
    policy_event :
        (id : String) (exists : Bool)
        → t ≡ record s {
          policies = set_at id exists s.policies;
          queue = s.queue ++ requests_for (list_by_policy s.configs) id;
          running = touch id s.running;
        }
        → LoopStep s t
    config_event :
        (name : String) (config : Option PolicyConfigCrd)
        → t ≡ record s { configs = store name config s.configs; queue = s.queue ++ name ∷ [] }
        → LoopStep s t
    begin :
        (before after : List String) (name : String) (c : PolicyConfigCrd)
        → s.running ≡ none
        → s.queue ≡ before ++ name ∷ after
        → lookup name s.configs ≡ some c
        → t ≡ record s {
          queue = before ++ after;
          running = some (record { name = name; config = c; touched = [] });
        }
        → LoopStep s t
    gone :
        (before after : List String) (name : String)
        → s.running ≡ none
        → s.queue ≡ before ++ name ∷ after
        → lookup name s.configs ≡ none
        → t ≡ record s { queue = before ++ after }
        → LoopStep s t
    patches :
        (r : Running) (get : String → Answer PolicyCrd)
        (patch : PolicyConfigCrd → Result (Unit {0})) (u : PolicyConfigCrd) (again : List String)
        → s.running ≡ some r
        → AnswersFor s r.touched get
        → reconcile (found r.config) get patch ≡ ok (some u)
        → (again ≡ r.name ∷ [])
          ⊎ ((again ≡ [])
              × (patch_stored r.config u (lookup r.name s.configs) ≡ lookup r.name s.configs))
        → t ≡ record s {
          configs = store r.name (patch_stored r.config u (lookup r.name s.configs)) s.configs;
          queue = s.queue ++ again;
          running = none;
        }
        → LoopStep s t
    ends :
        (r : Running) (get : String → Answer PolicyCrd)
        (patch : PolicyConfigCrd → Result (Unit {0}))
        → s.running ≡ some r
        → AnswersFor s r.touched get
        → reconcile (found r.config) get patch ≡ ok none
        → t ≡ record s { running = none }
        → LoopStep s t
    fails :
        (r : Running) (get : String → Answer PolicyCrd)
        (patch : PolicyConfigCrd → Result (Unit {0})) (e : String)
        → s.running ≡ some r
        → AnswersFor s r.touched get
        → reconcile (found r.config) get patch ≡ err e
        → t ≡ record s { queue = s.queue ++ r.name ∷ []; running = none }
        → LoopStep s t

  pub data Reach (s : Cluster) : Cluster → Type 0 where
    here : Reach s s
    next : {t u : Cluster} → Reach s t → LoopStep t u → Reach s u
