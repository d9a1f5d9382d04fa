-- ===== src/Agent/Stages.antt =====
-- What holds where a stage of the agent's start gets through (main.go).
use policy_agent.Prelude.{String, List, [], ◌∷◌, ◌++◌, Result, ok, err, ◌≡◌, refl, inl, inr, Any}
use policy_agent.Agent.{Progress, Halted, done, failed, exits, Setup, continue_with, attempt}
use policy_agent.Agent.Startup.{Runnable}

-- Where a stage of the start gets through, its value and what has been registered are as stated.
pub Lands : {A : Type 0} → (A → Progress Runnable → Type 0) → Progress Runnable × Halted A → Type 0
Lands Q (p, done a) = Q a p
Lands Q (p, failed e) = Unit {0}
Lands Q (p, exits e) = Unit {0}

-- What is said of nothing, and of the stage itself.
pub any-Lands : {A : Type 0} (s : Progress Runnable × Halted A) → Lands (λ a q. Unit {0}) s
unfolding Lands
any-Lands (p, done a) = tt
any-Lands (p, failed e) = tt
any-Lands (p, exits e) = tt

pub self-Lands : {A : Type 0} (s : Progress Runnable × Halted A) → Lands (λ a q. s ≡ (q, done a)) s
unfolding Lands
self-Lands (p, done a) = refl
self-Lands (p, failed e) = tt
self-Lands (p, exits e) = tt

-- What a stage that got through says, and what follows from it.
pub landed :
    {A : Type 0} (Q : A → Progress Runnable → Type 0) (a : A) (p : Progress Runnable)
    → Lands Q (p, done a)
    → Q a p
unfolding Lands
landed Q a p h = h

pub weaken-Lands :
    {A : Type 0} (Q : A → Progress Runnable → Type 0) (Q' : A → Progress Runnable → Type 0)
    (s : Progress Runnable × Halted A)
    → ((a : A) (p : Progress Runnable) → Q a p → Q' a p)
    → Lands Q s
    → Lands Q' s
unfolding Lands
weaken-Lands Q Q' (p, done a) f h = f a p h
weaken-Lands Q Q' (p, failed e) f h = tt
weaken-Lands Q Q' (p, exits e) f h = tt

pub continue-Lands :
    {A B : Type 0} (Q : A → Progress Runnable → Type 0) (Q' : B → Progress Runnable → Type 0)
    (f : A → Setup Runnable B) (s : Progress Runnable × Halted A)
    → Lands Q s
    → ((a : A) (p : Progress Runnable) → Q a p → Lands Q' (f a p))
    → Lands Q' (continue_with f s)
unfolding Lands continue_with
continue-Lands Q Q' f (p, done a) h go = go a p h
continue-Lands Q Q' f (p, failed e) h go = tt
continue-Lands Q Q' f (p, exits e) h go = tt

pub attempt-Lands :
    {A B : Type 0} (Q : B → Progress Runnable → Type 0) (r : Result A) (f : A → Setup Runnable B)
    (p : Progress Runnable)
    → ((a : A) → r ≡ ok a → Lands Q (f a p))
    → Lands Q (continue_with f (attempt r p))
unfolding Lands continue_with attempt
attempt-Lands Q (ok b) f p go = go b refl
attempt-Lands Q (err e) f p go = tt

pub last-Lands :
    {A : Type 0} (Q : A → Progress Runnable → Type 0) (r : Result A) (p : Progress Runnable)
    → ((a : A) → r ≡ ok a → Q a p)
    → Lands Q (attempt r p)
unfolding Lands attempt
last-Lands Q (ok a) p go = go a refl
last-Lands Q (err e) p go = tt

pub failed-Lands :
    {A : Type 0} (Q : A → Progress Runnable → Type 0) (e : String) (p : Progress Runnable)
    → Lands Q (attempt (err e) p)
unfolding Lands attempt
failed-Lands Q e p = tt

pub exits-Lands :
    {A : Type 0} (Q : A → Progress Runnable → Type 0) (e : String) (p : Progress Runnable)
    → Lands Q (p, exits e)
unfolding Lands
exits-Lands Q e p = tt

-- A step that gets through.
pub go-Lands :
    {A B : Type 0} (Q : B → Progress Runnable → Type 0) (f : A → Setup Runnable B)
    (p : Progress Runnable) (a : A)
    → Lands Q (f a p)
    → Lands Q (continue_with f (p, done a))
unfolding Lands continue_with
go-Lands Q f p a h = h

pub land :
    {A : Type 0} (Q : A → Progress Runnable → Type 0) (a : A) (p : Progress Runnable)
    → Q a p
    → Lands Q (p, done a)
unfolding Lands
land Q a p h = h

abbrev pub IsIn : Runnable → List Runnable → Type 0
IsIn r = Any (λ s. r ≡ s)

-- All given runnables are among the others.
abbrev pub AreIn : List Runnable → List Runnable → Type 0
AreIn rs all = (r : Runnable) → IsIn r rs → IsIn r all

abbrev pub Adds : Progress Runnable → List Runnable → Progress Runnable → Type 0
Adds p rs q = AreIn p.registered q.registered × AreIn rs q.registered

abbrev pub AddsOne : Progress Runnable → Runnable → Progress Runnable → Type 0
AddsOne p s q = q ≡ record p { registered = s ∷ p.registered }

pub AreIn-append : (xs ys all : List Runnable) → AreIn xs all → AreIn ys all → AreIn (xs ++ ys) all
AreIn-append [] ys all f g = g
AreIn-append (x ∷ xs) ys all f g = λ r h. elim h [
  | inl e ↦ f r (inl e)
  | inr i ↦ AreIn-append xs ys all (λ s j. f s (inr j)) g r i
]

-- The sinks of a validator are run after all that follows the stage that made them.
pub AddsOne-Adds :
    (p q : Progress Runnable) (s : Runnable)
    → AddsOne p s q
    → Adds p (s ∷ []) (record q { deferred = s ∷ q.deferred })
AddsOne-Adds p q s h = rw h (λ r i. inr i, λ r i. elim i [ inl e ↦ inl e | inr b ↦ absurd b ])

pub nothing-Adds : (p : Progress Runnable) → Adds p [] p
nothing-Adds p = (λ r i. i, λ r i. absurd i)

pub Adds-append :
    (p q t : Progress Runnable) (xs ys : List Runnable)
    → Adds p xs q
    → Adds q ys t
    → Adds p (xs ++ ys) t
Adds-append p q t xs ys (kept, added) (kept', added') =
    (λ r i. kept' r (kept r i), AreIn-append xs ys t.registered (λ r i. kept' r (added r i)) added')
