-- ===== src/Elastic/Schema.antt =====
-- internal/sink/elastic/elastic.go: the sink is made once its index and its mapping are there.
use policy_agent.Prelude.{ℕ, String, Result, ok, err, ◌>>=◌, eqb, if◌then◌else◌, ◌<>◌}
use policy_agent.Elastic.{Sink, start}

-- The client of the elasticsearch library: every request answers an error or a status code.
pub record Client : Type 0 where
  pub exists : String → Result ℕ
  pub create : String → Result ℕ
  pub put_mapping : String → Result ℕ

-- The last request. Its status is looked at, but `errors.WithMessagef` of no error is no error.
abbrev put_schema : Client → String → Result (Unit {0})
put_schema client index = elim (client.put_mapping index) [
  | err e ↦ err ("failed to update schema: " <> e)
  | ok code ↦ if eqb code 200 then ok tt else ok tt
]

-- `createIndexSchema`. An index that the server refuses to create ends it without an error.
unfoldable pub create_index_schema : Client → String → Result (Unit {0})
create_index_schema client index = elim (client.exists index) [
  | err e ↦ err ("failed to check if index exists: " <> e)
  | ok found ↦
      if eqb found 404
      then elim (client.create index) [
        | err e ↦ err ("failed to create index: " <> e)
        | ok code ↦ if eqb code 200 then put_schema client index else ok tt
      ]
      else put_schema client index
]

-- `NewElasticSearchSink`; `new_client` takes the address, the user and the password.
unfoldable pub new_elastic_search_sink :
    (String → String → String → Result Client) → String → String → String → String → Result Sink
new_elastic_search_sink new_client address username password index = do
  client ← new_client address username password
  schema ← create_index_schema client index
  ok start
