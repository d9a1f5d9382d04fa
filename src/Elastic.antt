-- ===== src/Elastic.antt =====
-- internal/sink/elastic/elastic.go: results are buffered and written in batches.
pub mod Laws
pub mod Retries
pub mod Schema
use policy_agent.Prelude.{
  ℕ, zero, suc, String, Bool, true, false, not, List, [], ◌∷◌, ◌++◌, Option, none, some, Result, ok,
  err, is_empty, length, eqb, if◌then◌else◌, ◌==◌, ◌<>◌, ◌>>=◌,
}
use policy_agent.Domain.{PolicyValidation}

abbrev pub batch_size : ℕ
batch_size = 100

abbrev pub retries : ℕ
retries = 5

-- What `Start` selects: a result from the channel, the ticker, or the context's end.
pub data Signal : Type 0 where
  result : PolicyValidation → Signal
  tick : Signal
  done : Signal

-- The batch, the batches handed to `writeBatch` so far, and whether `Start` has returned.
pub record Sink : Type 0 where
  pub batch : List PolicyValidation
  pub written : List (List PolicyValidation)
  pub stopped : Bool

abbrev pub start : Sink
start = record { batch = []; written = []; stopped = false }

flush : Sink → Sink
flush s = record s { batch = []; written = s.written ++ s.batch ∷ [] }

-- One round of the loop. The last batch is written and not emptied.
unfoldable pub step : Sink → Signal → Sink
unfolding flush
step s (result r) =
    let s' : Sink = record s { batch = s.batch ++ r ∷ [] } in
    if eqb (length s'.batch) batch_size then flush s' else s'
step s tick = if not (is_empty s.batch) then flush s else s
step s done =
    let t : Sink = record s { stopped = true } in
    if not (is_empty s.batch) then record t { written = s.written ++ s.batch ∷ [] } else t

unfoldable pub run : Sink → List Signal → Sink
run s [] = s
run s (x ∷ xs) = let rest = run (step s x) xs in if s.stopped then s else rest

-- What a bulk request answers: an error, or a status code.
pub data Reply : Type 0 where
  no_reply : Reply
  status : ℕ → Reply

-- `writeBatch`: `body` is what `createIndexBody` makes in each round and `bulk` the server's answer
-- to the request of a round. The bodies that are sent, and whether one was accepted.
unfoldable pub attempts : ℕ → ℕ → Result String → (ℕ → Reply) → List String × Bool
attempts zero round body bulk = ([], false)
attempts (suc left) round body bulk =
    let (later, accepted) = attempts left (suc round) body bulk in
    elim body [
      | err e ↦ (later, accepted)
      | ok text ↦ elim (bulk round) [
        | no_reply ↦ (text ∷ later, accepted)
        | status code ↦ if eqb code 200 then (text ∷ [], true) else (text ∷ later, accepted)
      ]
    ]

unfoldable pub write_batch : Result String → (ℕ → Reply) → List String × Bool
unfolding attempts
write_batch body bulk = attempts retries 0 body bulk

-- `createDocumentBody`; `header` and `marshal` are the JSON texts of the index line and the document.
unfoldable pub create_document_body :
    (String → String → Result String)
    → (PolicyValidation → Result String)
    → PolicyValidation
    → String
    → String
    → Result String
create_document_body header marshal document id index = do
  head ← header index id
  body ← marshal document
  ok (head <> "\n" <> body <> "\n")

-- `createIndexBody`; `day` formats a time as a date.
unfoldable pub create_index_body :
    (String → String → Result String)
    → (PolicyValidation → Result String)
    → (ℕ → String)
    → String
    → String
    → List PolicyValidation
    → Result String
create_index_body header marshal day index insertion_mode [] = ok ""
create_index_body header marshal day index insertion_mode (v ∷ vs) = do
  let id =
      if insertion_mode == "upsert"
      then v.policy.id <> "_" <> v.entity.id <> "_" <> day v.created_at
      else v.id
  here ← create_document_body header marshal v id index
  rest ← create_index_body header marshal day index insertion_mode vs
  ok (here <> rest)
