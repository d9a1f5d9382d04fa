-- ===== src/Elastic/Retries.antt =====
-- How often a batch is sent (internal/sink/elastic/elastic.go, `writeBatch`).
use policy_agent.Prelude.{
  ℕ, zero, suc, ◌≤◌, String, true, false, [], Result, ok, err, ◌≡◌, refl, ◌↔◌, ◌⊎◌, inl, inr,
  Bool-cases, arith, length, eqb,
}
use policy_agent.Elastic.{Reply, no_reply, status, attempts, write_batch, retries}

attempts_bound :
    (left round : ℕ) (body : Result String) (bulk : ℕ → Reply)
    → length (attempts left round body bulk).0 ≤ left
unfolding attempts
attempts_bound zero round body bulk = omega arith
attempts_bound (suc left) round body bulk =
    ground (arith, attempts_bound left (suc round) body bulk)

-- The server accepts a round's request.
abbrev pub Accepts : Reply → Type 0
Accepts no_reply = ⊥
Accepts (status code) = code ≡ 200

-- One of the rounds, from one on, is accepted.
abbrev pub AcceptsOne : ℕ → ℕ → (ℕ → Reply) → Type 0
AcceptsOne zero round bulk = ⊥
AcceptsOne (suc left) round bulk = Accepts (bulk round) ⊎ AcceptsOne left (suc round) bulk

Reply-cases : (r : Reply) → (r ≡ no_reply) ⊎ ((code : ℕ) × (r ≡ status code))
Reply-cases no_reply = inl refl
Reply-cases (status code) = inr (code, refl)

attempts_accepted_iff :
    (left round : ℕ) (text : String) (bulk : ℕ → Reply)
    → ((attempts left round (ok text) bulk).1 ≡ true) ↔ AcceptsOne left round bulk
unfolding attempts
attempts_accepted_iff zero round text bulk = (λ h. absurd (cc), λ a. absurd a)
attempts_accepted_iff (suc left) round text bulk =
    let (to, from) = attempts_accepted_iff left (suc round) text bulk in
    elim (Reply-cases (bulk round)) [
      | inl silent ↦
          rw (silent, attempts) (λ h. inr (to h), λ a. elim a [ inl x ↦ absurd x | inr b ↦ from b ])
      | inr (code, answered) ↦ elim (Bool-cases (eqb code 200)) [
        | inl e ↦ rw (answered, e, attempts) (λ _. inl (ground arith), λ _. refl)
        | inr e ↦
            rw (answered, e, attempts)
              (λ h. inr (to h), λ a. elim a [ inl x ↦ absurd (ground arith) | inr b ↦ from b ])
      ]
    ]

-- A batch is sent at most `retries` times, and it has been accepted exactly if the server accepted
-- one of these requests; a batch whose body cannot be made is never sent.
pub write_batch-accepted_iff :
    (body : Result String) (text message : String) (bulk : ℕ → Reply)
    → (length (write_batch body bulk).0 ≤ retries)
      × (((write_batch (ok text) bulk).1 ≡ true) ↔ AcceptsOne retries 0 bulk)
      × (write_batch (err message) bulk ≡ ([], false))
unfolding write_batch attempts
write_batch-accepted_iff body text message bulk =
    (attempts_bound retries 0 body bulk, attempts_accepted_iff retries 0 text bulk, refl)
