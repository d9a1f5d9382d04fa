-- ===== src/Controller.antt =====
-- controllers/policyconfig_controller.go: the webhook that admits policy configs, and the
-- reconciliation of their status.
pub mod Laws
pub mod Reconciliation
pub mod Store
pub mod Loop
use policy_agent.Prelude.{
  String, Bool, true, false, not, List, [], ◌∷◌, ◌++◌, Option, none, some, Result, ok, err, map,
  Map, contains, is_empty, if◌then◌else◌, ◌==◌, ◌<>◌, ◌>>=◌,
}
use policy_agent.Api.{
  PolicyConfigCrd, PolicyConfigTarget, ObjectTarget, target_id, elements, validate_config,
  set_policy_config_status,
}

-- The loop over the new config's targets of one kind, by their ids: the first one that the other
-- config has too is reported.
first_overlap : String → String → List String → List String → Option String
first_overlap kind name taken [] = none
first_overlap kind name taken (id ∷ ids) =
    let rest = first_overlap kind name taken ids in
    if contains id taken
    then some ("policy config '" <> name <> "' already targets " <> kind <> " '" <> id <> "'")
    else rest

-- The targets of the kind that the stored config uses, against those of the new one.
overlap_by : String → String → List String → Option (List String) → Option String
unfolding first_overlap
overlap_by kind name taken none = none
overlap_by kind name taken (some ids) = first_overlap kind name taken ids

abbrev pub ids_of : Option (List ObjectTarget) → Option (List String)
ids_of none = none
ids_of (some ts) = some (map target_id ts)

-- `checkTargetOverlap`: the error, if there is one. Only the first kind of target that the stored
-- config sets is compared.
unfoldable pub check_target_overlap : PolicyConfigCrd → PolicyConfigCrd → Option String
unfolding overlap_by
check_target_overlap config new_config =
    let old = config.match in
    let new = new_config.match in
    elim old.workspaces [
      | some ws ↦ overlap_by "workspace" config.name ws new.workspaces
      | none ↦ elim old.namespaces [
        | some ns ↦ overlap_by "namespace" config.name ns new.namespaces
        | none ↦ elim (ids_of old.applications) [
          | some apps ↦ overlap_by "application" config.name apps (ids_of new.applications)
          | none ↦ elim (ids_of old.resources) [
            | some rs ↦ overlap_by "resource" config.name rs (ids_of new.resources)
            | none ↦ none
          ]
        ]
      ]
    ]

pub data Response : Type 0 where
  bad_request : String → Response
  server_error : String → Response
  denied : String → Response
  allowed : Response

-- The loop over the stored configs; the config of the same name is the one that is updated.
unfoldable pub check_configs : PolicyConfigCrd → List PolicyConfigCrd → Response
check_configs new_config [] = allowed
check_configs new_config (config ∷ configs) =
    let rest = check_configs new_config configs in
    if config.name == new_config.name
    then rest
    else elim (check_target_overlap config new_config) [ some e ↦ denied e | none ↦ rest ]

-- `Handle`: `decoded` is what the decoder makes of the request, `list_configs` the stored configs.
unfoldable pub handle : Result PolicyConfigCrd → Result (List PolicyConfigCrd) → Response
handle (err e) list_configs = bad_request e
handle (ok new_config) list_configs = elim (validate_config new_config) [
  | err e ↦ denied e
  | ok _ ↦ elim list_configs [
    | err e ↦ server_error e
    | ok configs ↦ check_configs new_config configs
  ]
]

-- An answer of the API server to `Get`.
pub data Answer (A : Type 0) : Type 0 where
  found : A → Answer A
  not_found : Answer A
  failed : String → Answer A

-- The loop that collects the missing policies; `P` is whatever is read of a policy.
unfoldable pub missing_policies :
    {P : Type 0} → (String → Answer P) → List String → Result (List String)
missing_policies get [] = ok []
missing_policies get (id ∷ ids) =
    let rest = missing_policies get ids in
    elim (get id) [
      | found p ↦ rest
      | not_found ↦ rest >>= λ more. ok (id ∷ more)
      | failed e ↦ err e
    ]

-- `Reconcile`: the config whose status is patched, if one is.
unfoldable pub reconcile :
    {P : Type 0}
    → Answer PolicyConfigCrd
    → (String → Answer P)
    → (PolicyConfigCrd → Result (Unit {0}))
    → Result (Option PolicyConfigCrd)
reconcile not_found get patch = ok none
reconcile (failed e) get patch = err e
reconcile (found c) get patch = if c.deleting then ok none else (do
  missing ← missing_policies get (map (λ e. e.0) c.config)
  let updated = set_policy_config_status missing c
  done ← patch updated
  ok (some updated))

-- The index of a config by the policies that it configures, and the requests for a policy that has
-- changed: one for each config that the index finds.
unfoldable pub index_keys : PolicyConfigCrd → List String
index_keys c = map (λ e. e.0) c.config

unfoldable pub requests_for : (String → Result (List PolicyConfigCrd)) → String → List String
requests_for list_by_policy policy = elim (list_by_policy policy) [
  | err e ↦ []
  | ok configs ↦ map (λ c. c.name) configs
]
