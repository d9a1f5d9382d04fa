-- ===== src/Api/Laws.antt =====
-- What `PolicyConfig.Validate` accepts (api/v2beta3/policyconfig_types.go).
use policy_agent.Prelude.{ℕ, ◌+◌, String, List, Option, none, some, ok, ◌≡◌, ◌↔◌, arith}
use policy_agent.Api.{PolicyConfigCrd, PolicyConfigTarget, validate_config}

-- One for a slice that is set.
abbrev pub is_set : {A : Type 0} → Option (List A) → ℕ
is_set none = 0
is_set (some xs) = 1

abbrev pub count_targets : PolicyConfigTarget → ℕ
count_targets t =
    is_set t.workspaces + is_set t.namespaces + is_set t.applications + is_set t.resources

-- A policy config is accepted exactly when it targets by one kind of target.
pub validate_config_iff :
    (c : PolicyConfigCrd) → (validate_config c ≡ ok tt) ↔ (count_targets c.match ≡ 1)
unfolding validate_config
validate_config_iff c =
    by_target c.match.workspaces c.match.namespaces c.match.applications c.match.resources
  where
    by_target :
        (w n : Option (List String)) (a r : Option (List policy_agent.Api.ObjectTarget))
        → (validate_config (record c {
          match = record { workspaces = w; namespaces = n; applications = a; resources = r };
        })
            ≡ ok tt)
          ↔ (is_set w + is_set n + is_set a + is_set r ≡ 1)
    by_target none none none none = ground arith
    by_target _ _ _ _ = ground arith
