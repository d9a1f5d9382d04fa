-- ===== src/Kube.antt =====
-- internal/clients/kube/kube.go: the client of the cluster, as the other parts call it.
use policy_agent.Prelude.{
  String, List, [], ◌∷◌, Result, ok, err, ◌>>=◌, map_err, Run, returns, panics, split_char, ◌<>◌,
}
use policy_agent.Entities.{ResourceRule, ApiResourceList, Listing}

-- `NewKubeClient`: both of client-go's clients can be made.
unfoldable pub new_kube_client : Result (Unit {0}) → Result (Unit {0}) → Result (Unit {0})
new_kube_client clientset dynamic_client = do
  made ← map_err (λ e. "unable to create clientset for kube client, error: " <> e) clientset
  map_err (λ e. "unable to create dynamic client for kube client, error: " <> e) dynamic_client

-- `GetAgentPermissions`; `review` is what the API server answers to a self subject rules review in
-- the namespace "kube-system".
unfoldable pub get_agent_permissions : Result (List ResourceRule) → Result (List ResourceRule)
get_agent_permissions review = map_err (λ e. "unable to get agent permissions, error: " <> e) review

-- `ListResourceItems`.
unfoldable pub list_resource_items : String → String → Result Listing → Result Listing
list_resource_items resource namespace answer =
    map_err
      (λ e. "unable to list resource " <> resource <> " in namespace " <> namespace <> ": " <> e)
      answer

-- `GetAPIResources`.
unfoldable pub get_api_resources : Result (List ApiResourceList) → Result (List ApiResourceList)
get_api_resources answer = map_err (λ e. "failed to get server api resources: " <> e) answer

-- `GetServerVersion`.
unfoldable pub get_server_version : Result String → Result String
get_server_version answer = map_err (λ e. "unable to get cluster version: " <> e) answer

-- `GetClusterProvider`, from the provider ids of the nodes; the first node is taken without a test.
unfoldable pub get_cluster_provider : Result (List String) → Run (Result String)
get_cluster_provider (err e) = returns (err ("unable to list cluster nodes: " <> e))
get_cluster_provider (ok []) = panics
get_cluster_provider (ok (id ∷ ids)) = elim (split_char b':' id) [
  | [] ↦ panics
  | part ∷ parts ↦ returns (ok part)
]

-- `GetAgentNamespace`, from the mounted file.
abbrev pub get_agent_namespace : Result String → String
get_agent_namespace (ok text) = text
get_agent_namespace (err e) = "undefined"
