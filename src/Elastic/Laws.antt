-- ===== src/Elastic/Laws.antt =====
-- No result is lost, doubled or reordered on its way into a batch (internal/sink/elastic/elastic.go).
use mathlib.Core.List.{append-nil, append_assoc}
use policy_agent.Prelude.{
  eqb, ℕ, ◌≤◌, ◌<◌, Bool, true, false, not, List, [], ◌∷◌, ◌++◌, ◌≡◌, refl, sym, ap, ◌∙◌, arith,
  length, length-append, All, All-append, eqb, is_empty, if◌then◌else◌, if_cases,
}
use policy_agent.Domain.{PolicyValidation}
use policy_agent.Elastic.{batch_size, Signal, result, tick, done, Sink, start, step, run}

-- The batches one after the other.
abbrev pub flatten : List (List PolicyValidation) → List PolicyValidation
flatten [] = []
flatten (b ∷ bs) = b ++ flatten bs

flatten-append :
    (xs ys : List (List PolicyValidation)) → flatten (xs ++ ys) ≡ flatten xs ++ flatten ys
flatten-append [] ys = refl
flatten-append (x ∷ xs) ys = rw (flatten-append xs ys) (sym (append_assoc x _ _))

-- The results among the signals, up to the end of the context.
abbrev pub received : List Signal → List PolicyValidation
received [] = []
received (result r ∷ xs) = r ∷ received xs
received (tick ∷ xs) = received xs
received (done ∷ xs) = []

abbrev pub ends : List Signal → Bool
ends [] = false
ends (done ∷ xs) = true
ends (result r ∷ xs) = ends xs
ends (tick ∷ xs) = ends xs

-- What has been handed to `writeBatch`, and what is still buffered while the loop runs.
abbrev pub held : Sink → List PolicyValidation
held s = flatten s.written ++ (if s.stopped then [] else s.batch)

-- A batch that is written has between one and `batch_size` results, and the buffer has room.
pub record IsBounded (s : Sink) : Type 0 where
  pub room : length s.batch < batch_size
  pub sizes : All (λ b. (0 < length b) × (length b ≤ batch_size)) s.written

abbrev Sized : List PolicyValidation → Type 0
Sized b = (0 < length b) × (length b ≤ batch_size)

length-pos : {A : Type 0} (xs : List A) → is_empty xs ≡ false → 0 < length xs
length-pos [] h = absurd (cc)
length-pos (x ∷ xs) h = omega arith

eqb-false : (a b : ℕ) → eqb a b ≡ false → a ≤ b → a < b
eqb-false a b h k = ground arith

step-IsBounded : (s : Sink) (x : Signal) → IsBounded s → IsBounded (step s x)
unfolding step
step-IsBounded s (result r) v =
    let more = length-append s.batch (r ∷ []) in
    if_cases IsBounded (eqb (length (s.batch ++ r ∷ [])) batch_size) _ _
      (λ e. record {
        room = omega arith;
        sizes = All-append Sized s.written _ v.sizes ((omega arith, omega (arith, v.room)), tt);
      })
      (λ e. record { room = eqb-false _ batch_size e (omega (arith, v.room)); sizes = v.sizes })
step-IsBounded s tick v =
    if_cases IsBounded (not (is_empty s.batch)) _ _
      (λ e. record {
        room = omega arith;
        sizes =
            All-append Sized s.written _ v.sizes
              ((length-pos s.batch (ground arith), omega (arith, v.room)), tt);
      })
      (λ e. v)
step-IsBounded s done v =
    if_cases IsBounded (not (is_empty s.batch)) _ _
      (λ e. record {
        room = v.room;
        sizes =
            All-append Sized s.written _ v.sizes
              ((length-pos s.batch (ground arith), omega (arith, v.room)), tt);
      })
      (λ e. record { room = v.room; sizes = v.sizes })

run-IsBounded : (s : Sink) (xs : List Signal) → IsBounded s → IsBounded (run s xs)
unfolding run
run-IsBounded s [] v = v
run-IsBounded s (x ∷ xs) v =
    if_cases IsBounded s.stopped _ _ (λ _. v)
      (λ _. run-IsBounded (step s x) xs (step-IsBounded s x v))

nil_of_empty : {A : Type 0} (xs : List A) → not (is_empty xs) ≡ false → xs ≡ []
nil_of_empty [] h = refl
nil_of_empty (x ∷ xs) h = absurd (cc)

-- What a round adds to what is held, and whether it ends the loop.
abbrev Adds : List PolicyValidation → Bool → Sink → Sink → Type 0
Adds rs stop s t = (held t ≡ held s ++ rs) × (t.stopped ≡ stop)

flushed :
    (ws : List (List PolicyValidation)) (b : List PolicyValidation)
    → flatten (ws ++ b ∷ []) ++ [] ≡ flatten ws ++ b
flushed ws b = rw (append-nil, flatten-append ws (b ∷ []), append-nil) refl

held_empty : (s : Sink) → s.stopped ≡ false → s.batch ≡ [] → flatten s.written ++ [] ≡ held s ++ []
held_empty s h b = rw (h, b) (sym (append-nil (flatten s.written ++ [])))

step-Adds :
    (s : Sink) (x : Signal)
    → s.stopped ≡ false
    → Adds (received (x ∷ [])) (ends (x ∷ [])) s (step s x)
unfolding step
step-Adds s (result r) h =
    if_cases (Adds (r ∷ []) false s) (eqb (length (s.batch ++ r ∷ [])) batch_size) _ _
      (λ e. (
        rw h (flushed s.written (s.batch ++ r ∷ []) ∙ sym (append_assoc (flatten s.written) _ _)),
        h,
      ))
      (λ e. (rw h (sym (append_assoc (flatten s.written) _ _)), h))
step-Adds s tick h =
    if_cases (Adds [] false s) (not (is_empty s.batch)) _ _
      (λ e. (rw h (flushed s.written s.batch ∙ sym (append-nil (flatten s.written ++ s.batch))), h))
      (λ e. (sym (append-nil (held s)), h))
step-Adds s done h =
    if_cases (Adds [] true s) (not (is_empty s.batch)) _ _
      (λ e.
        (rw h (flushed s.written s.batch ∙ sym (append-nil (flatten s.written ++ s.batch))), refl))
      (λ e. (held_empty s h (nil_of_empty s.batch e), refl))

run_stopped : (s : Sink) (xs : List Signal) → s.stopped ≡ true → run s xs ≡ s
unfolding run
run_stopped s [] h = refl
run_stopped s (x ∷ xs) h = rw (h, run) refl

run-cons :
    (s : Sink) (x : Signal) (xs : List Signal)
    → s.stopped ≡ false
    → run s (x ∷ xs) ≡ run (step s x) xs
unfolding run
run-cons s x xs h = ground arith

run-Adds :
    (s : Sink) (xs : List Signal) → s.stopped ≡ false → Adds (received xs) (ends xs) s (run s xs)
run-Adds s [] h = unfold run in (sym (append-nil (held s)), h)
run-Adds s (result r ∷ xs) h =
    let (a, b) = step-Adds s (result r) h in
    let (c, d) = run-Adds (step s (result r)) xs b in
    rw (run-cons s (result r) xs h)
      (c ∙ ap (λ ys. ys ++ received xs) a ∙ append_assoc (held s) (r ∷ []) (received xs), d)
run-Adds s (tick ∷ xs) h =
    let (a, b) = step-Adds s tick h in
    let (c, d) = run-Adds (step s tick) xs b in
    rw (run-cons s tick xs h) (c ∙ ap (λ ys. ys ++ received xs) (a ∙ append-nil (held s)), d)
run-Adds s (done ∷ xs) h =
    let (a, b) = step-Adds s done h in
    rw (run-cons s done xs h, run_stopped (step s done) xs b) (a, b)

-- Whatever the order of results, ticks and the context's end, the batches that have been written and
-- the buffer hold together the results received, each once and in order; every batch has between one
-- and `batch_size` results and the buffer has room for another; and the loop has stopped exactly if
-- the context has ended, after which nothing received is left in the buffer alone.
pub run-start :
    (xs : List Signal)
    → (flatten (run start xs).written
          ++ (if (run start xs).stopped then [] else (run start xs).batch)
        ≡ received xs)
      × ((run start xs).stopped ≡ ends xs)
      × IsBounded (run start xs)
run-start xs =
    let (a, b) = run-Adds start xs refl in
    (a, b, run-IsBounded start xs (record { room = omega arith; sizes = tt }))
