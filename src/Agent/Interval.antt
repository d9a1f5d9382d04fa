-- ===== src/Agent/Interval.antt =====
-- The interval of the audit as an int64 (main.go), and the ticker of its loop
-- (internal/auditor/auditor.go).
use policy_agent.Prelude.{
  ℕ, ◌≤◌, ◌<◌, ◌*◌, ◌^◌, ltb, [], ◌∷◌, Bool-cases, returns, panics, ◌≡◌, ◌⊎◌, inl, inr, arith,
}
use policy_agent.Auditor
use policy_agent.Agent.Modes.{audit_interval}

-- An interval that fits into an int64 is not changed.
pub audit_interval-fits :
    (n : ℕ) → (2562048 ≤ n) ⊎ ((audit_interval n ≡ n * 3600000000000) × (audit_interval n < 2 ^ 63))
unfolding audit_interval
audit_interval-fits n = elim (Bool-cases (ltb n 2562048)) [
  | inl e ↦
      let small : n < 2562048 = ground arith in inr (omega (arith, small), omega (arith, small))
  | inr e ↦ inl (ground arith)
]

-- The loop begins with an event that waits for it, or its ticker panics.
pub start_controller-begins :
    (n : ℕ)
    → ((1 ≤ n)
        × (n < 2 ^ 63)
        × (Auditor.start_controller n (Auditor.event "initial-audit" ∷ [])
            ≡ returns ("initial-audit" ∷ [])))
      ⊎ (((n ≡ 0) ⊎ (2 ^ 63 ≤ n))
          × (Auditor.start_controller n (Auditor.event "initial-audit" ∷ []) ≡ panics))
unfolding Auditor.start_controller Auditor.start
start_controller-begins n = elim (Bool-cases (ltb 0 n)) [
  | inr e ↦ inr (inl (ground arith), ground arith)
  | inl e ↦ elim (Bool-cases (ltb n (2 ^ 63))) [
    | inl f ↦ inl (ground arith, ground arith, ground arith)
    | inr f ↦ inr (inr (ground arith), ground arith)
  ]
]
