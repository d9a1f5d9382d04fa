-- ===== src/Agent/Wired.antt =====
-- What it means that the agent has the parts that its configuration enables (main.go).
use policy_agent.Entities.{get_entities_sources}
use policy_agent.Kube.{get_agent_permissions, get_api_resources}
use policy_agent.Prelude.{
  subst, ◌≤◌, ◌<◌, ◌*◌, ◌%◌, ◌^◌, returns, panics, String, Bool, true, false, ◌&&◌, List, [], ◌∷◌,
  Option, none, some, ok, Bool-cases, if◌then◌else◌, ◌≡◌, refl, ◌⊎◌, inl, inr, arith, Member, All,
  contains, contains_iff,
}
use policy_agent.Validation.{OpaValidator}
use policy_agent.Auditor
use policy_agent.Agent.{Config}
use policy_agent.Agent.Configuration.{log_levels}
use policy_agent.Agent.Startup.{Runnable, audit_controller, Platform, check_config}
use policy_agent.Agent.Modes.{Audit, Agent, new_policies_watcher, new_opa_validator}
use policy_agent.Agent.Stages.{IsIn, AreIn}

-- Something is there exactly if it is enabled, and then it is as stated.
abbrev pub OnlyIf : {A : Type 0} → Bool → (A → Type 0) → Option A → Type 0
OnlyIf true P (some a) = P a
OnlyIf true P none = ⊥
OnlyIf false P (some a) = ⊥
OnlyIf false P none = Unit {0}

pub OnlyIf-some :
    {A : Type 0} (b : Bool) (P : A → Type 0) (o : Option A) (a : A)
    → OnlyIf b P o
    → o ≡ some a
    → P a
OnlyIf-some true P (some b) a h e = let same : b ≡ a = cc in subst P same h
OnlyIf-some true P none a h e = absurd h
OnlyIf-some false P (some b) a h e = absurd h
OnlyIf-some false P none a h e = absurd (ground arith)

-- A validator with its type, for the policies of a provider, which mutates or not, and whose sinks are all run by the manager.
pub record IsRunning (x : Platform) (c : Config) (provider type : String) (mutates : Bool)
    (all : List Runnable) (v : OpaValidator Runnable) : Type 0 where
  pub source_is : v.policies_source ≡ new_policies_watcher x provider
  pub type_is : v.validation_type ≡ type
  pub mutates_is : v.mutates ≡ mutates
  pub account_is : v.account_id ≡ c.account_id
  pub cluster_is : v.cluster_id ≡ c.cluster_id
  pub sinks_run : All (λ r. IsIn r all) v.results_sinks

-- The start of the audit's loop: with a positive int64 as its interval it begins with the initial
-- audit, and with any other the ticker panics.
abbrev pub Begins : Audit → Type 0
Begins a =
    ((1 ≤ a.interval)
      × (a.interval < 2 ^ 63)
      × (Auditor.start_controller a.interval a.pending ≡ returns ("initial-audit" ∷ [])))
    ⊎ (((a.interval ≡ 0) ⊎ (2 ^ 63 ≤ a.interval))
        × (Auditor.start_controller a.interval a.pending ≡ panics))

-- The audit is run too. Its sources are those that the cluster's answers give; its interval is the
-- configured number of hours, at least one, in nanoseconds, as far as these fit into an int64, and
-- wraps around beyond.
pub record IsAudited (x : Platform) (c : Config) (all : List Runnable) (a : Audit) : Type 0 where
  pub validator_runs : IsRunning x c "kubernetes" "Audit" false all a.validator
  pub sources_are :
      get_entities_sources (get_agent_permissions x.permissions) (get_api_resources x.api_resources)
      ≡ ok a.sources
  pub hours_bound : 1 ≤ c.audit.interval
  pub interval_is : a.interval ≡ (c.audit.interval * 3600000000000) % 2 ^ 64
  pub hours_fit :
      (2562048 ≤ c.audit.interval)
      ⊎ ((a.interval ≡ c.audit.interval * 3600000000000) × (a.interval < 2 ^ 63))
  pub controller_runs : IsIn (audit_controller a.interval) all
  pub pending_is : a.pending ≡ Auditor.event "initial-audit" ∷ []
  pub begins : Begins a

-- The agent has exactly the parts that its configuration enables.
pub record IsWired (x : Platform) (c : Config) (a : Agent) (all : List Runnable) : Type 0 where
  pub some_mode : (c.admission.enabled ≡ true) ⊎ (c.audit.enabled ≡ true)
  pub level_known : Member c.log_level log_levels
  pub audit : OnlyIf c.audit.enabled (IsAudited x c all) a.audit
  pub admission :
      OnlyIf c.admission.enabled (IsRunning x c "kubernetes" "Admission" false all) a.admission
  pub mutation :
      OnlyIf
        (c.admission.enabled && c.admission.mutate)
        (IsRunning x c "kubernetes" "Admission" true all)
        a.mutation
  pub terraform :
      OnlyIf c.tf_admission.enabled (IsRunning x c "terraform" "TFAdmission" false all) a.terraform

pub All-IsIn : (rs all : List Runnable) → AreIn rs all → All (λ r. IsIn r all) rs
All-IsIn [] all f = tt
All-IsIn (r ∷ rs) all f = (f r (inl refl), All-IsIn rs all (λ s i. f s (inr i)))

pub check_config-ok :
    (c : Config)
    → check_config c ≡ ok tt
    → ((c.admission.enabled ≡ true) ⊎ (c.audit.enabled ≡ true)) × Member c.log_level log_levels
unfolding check_config
check_config-ok c h = elim (Bool-cases (contains c.log_level log_levels)) [
  | inr e ↦ absurd (ground arith)
  | inl e ↦ ((ground arith), (contains_iff c.log_level log_levels).0 e)
]

module _ (x : Platform) where
  -- A validator that is there if a test holds.
  pub validator_if :
      (c : Config) (b : Bool) (provider type : String) (mutates : Bool) (sinks all : List Runnable)
      → AreIn sinks all
      → OnlyIf b
          (IsRunning x c provider type mutates all)
          (if b then some (new_opa_validator x c provider false type mutates sinks) else none)
  validator_if c true provider type mutates sinks all known = record {
    source_is = refl;
    type_is = refl;
    mutates_is = refl;
    account_is = refl;
    cluster_is = refl;
    sinks_run = All-IsIn sinks all known;
  }
  validator_if c false provider type mutates sinks all known = tt
