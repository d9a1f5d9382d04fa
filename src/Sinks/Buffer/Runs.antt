-- ===== src/Sinks/Buffer/Runs.antt =====
-- A worker sends for every result that its sink accepts, in order (internal/sink).
use mathlib.Core.List.{append-nil, append_assoc}
use policy_agent.Prelude.{
  ℕ, ◌≤◌, false, List, [], ◌∷◌, ◌++◌, returns, length, length-append, ◌≡◌, refl, sym, ap, ◌∙◌,
  arith,
}
use policy_agent.Domain.{PolicyValidation}
use policy_agent.Sinks.Buffer.{
  result_chan_size, Worker, Buffer, empty, stop, Move, write, start, take_result, halt, leave,
  Reach, here, more, handled, emitted,
}

module _ {Out : Type 0} (w : Worker Out) where
  pub emitted-append :
      (xs ys : List PolicyValidation) → emitted w (xs ++ ys) ≡ emitted w xs ++ emitted w ys
  emitted-append [] ys = refl
  emitted-append (x ∷ xs) ys = rw (emitted-append xs ys) (sym (append_assoc (w.emit false x) _ _))

  pub emitted_snoc :
      (xs : List PolicyValidation) (x : PolicyValidation)
      → emitted w (xs ++ x ∷ []) ≡ emitted w xs ++ w.emit false x
  emitted_snoc xs x = emitted-append xs (x ∷ []) ∙ ap (λ l. emitted w xs ++ l) (append-nil _)

  halted : (s : Buffer Out) {t : Buffer Out} → stop s ≡ returns t → t.stopped ≡ false → ⊥
  unfolding stop
  halted s e h = ground arith

  halt-queue : (s : Buffer Out) {t : Buffer Out} → stop s ≡ returns t → t.queue ≡ s.queue
  unfolding stop
  halt-queue s e = ground arith

  -- What a run to a sink that has not been stopped does.
  pub record Progress (s t : Buffer Out) (n : ℕ) : Type 0 where
    pub taken : List PolicyValidation
    pub written : List PolicyValidation
    pub queue_is : s.queue ++ written ≡ taken ++ t.queue
    pub accepted_is : t.accepted ≡ s.accepted ++ written
    pub sent_is : t.sent ≡ s.sent ++ emitted w taken
    pub count_is : length taken ≡ n

  pub Move-unstopped : {s t : Buffer Out} → Move w s t → t.stopped ≡ false → s.stopped ≡ false
  unfolding stop
  Move-unstopped (write r room e) h = ground arith
  Move-unstopped (start a e) h = ground arith
  Move-unstopped (take_result r rs a b c e) h = ground arith
  Move-unstopped (halt e) h = ground arith
  Move-unstopped (leave a b e) h = ground arith

  pub Reach-unstopped : {s t : Buffer Out} → Reach w s t → t.stopped ≡ false → s.stopped ≡ false
  Reach-unstopped here h = h
  Reach-unstopped (more step run) h = Reach-unstopped run (Move-unstopped step h)

  pub Reach-Progress :
      {s t : Buffer Out} (run : Reach w s t) → t.stopped ≡ false → Progress s t (handled run)
  Reach-Progress {s} here h = record {
    taken = [];
    written = [];
    queue_is = append-nil s.queue;
    accepted_is = sym (append-nil s.accepted);
    sent_is = sym (append-nil s.sent);
    count_is = refl;
  }
  Reach-Progress {s} (more {t = u} (write r room e) run) h =
      let p = Reach-Progress run (Move-unstopped (write r room e) h) in
      rw e (record {
        taken = p.taken;
        written = p.written ++ r ∷ [];
        queue_is =
            sym (append_assoc s.queue _ _)
            ∙ ap (λ l. l ++ r ∷ []) p.queue_is
            ∙ append_assoc p.taken _ _;
        accepted_is = ap (λ l. l ++ r ∷ []) p.accepted_is ∙ append_assoc s.accepted _ _;
        sent_is = p.sent_is;
        count_is = p.count_is;
      })
  Reach-Progress {s} (more {t = u} (start a e) run) h =
      let p = Reach-Progress run (Move-unstopped (start a e) h) in
      rw e (record {
        taken = p.taken;
        written = p.written;
        queue_is = p.queue_is;
        accepted_is = p.accepted_is;
        sent_is = p.sent_is;
        count_is = p.count_is;
      })
  Reach-Progress {s} (more {t = u} (take_result r rs a b c e) run) h =
      let calm = Move-unstopped (take_result r rs a b c e) h in
      let p = Reach-Progress run calm in
      rw e (record {
        taken = p.taken ++ r ∷ [];
        written = p.written;
        queue_is = p.queue_is ∙ ap (λ l. p.taken ++ l) c ∙ sym (append_assoc p.taken _ _);
        accepted_is = p.accepted_is;
        sent_is = rw calm (
            ap (λ l. l ++ w.emit false r) p.sent_is
            ∙ append_assoc s.sent _ _
            ∙ ap (λ l. s.sent ++ l) (sym (emitted_snoc p.taken r)));
        count_is = omega (arith, length-append p.taken (r ∷ []), p.count_is);
      })
  Reach-Progress {s} {t} (more {t = u} (halt e) run) h = elim (halted u e h) [ ]
  Reach-Progress {s} {t} (more (leave a b e) run) h = ground arith

  pub Reach-room :
      {s t : Buffer Out}
      → Reach w s t
      → length s.queue ≤ result_chan_size
      → length t.queue ≤ result_chan_size
  Reach-room here h = h
  Reach-room (more {t = u} (write r room e) run) h =
      rw e (omega (arith, length-append u.queue (r ∷ []), room))
  Reach-room (more {t = u} (start a e) run) h = rw e (Reach-room run h)
  Reach-room (more {t = u} (take_result r rs a b c e) run) h =
      rw e (omega (arith, Reach-room run h, ap length c))
  Reach-room (more {t = u} (halt e) run) h = rw (halt-queue u e) (Reach-room run h)
  Reach-room (more {t = u} (leave a b e) run) h = rw e (Reach-room run h)

  -- A list that starts another one, by their lengths.
  pub prefix :
      (xs ys us vs : List PolicyValidation)
      → xs ++ us ≡ ys ++ vs
      → length xs ≤ length ys
      → (ws : List PolicyValidation) × (ys ≡ xs ++ ws)
  prefix [] ys us vs e h = (ys, refl)
  prefix (x ∷ xs) [] us vs e h = ground arith
  prefix (x ∷ xs) (y ∷ ys) us vs e h =
      let (ws, f) = prefix xs ys us vs (cc) (omega (arith, h)) in (ws, cc)

  -- As long as a sink has not been stopped, its worker has sent exactly what it emits for the
  -- results that it has taken, in the order in which `Write` was given them, each once; the other
  -- accepted results wait in the channel, in the same order, at most 50 of them.
  pub Reach-Accounted :
      (s : Buffer Out)
      → Reach w empty s
      → s.stopped ≡ false
      → (taken : List PolicyValidation) × (s.accepted ≡ taken ++ s.queue)
        × (s.sent ≡ emitted w taken)
        × (length s.queue ≤ result_chan_size)
  Reach-Accounted s run h =
      let p = Reach-Progress run h in
      (p.taken, p.accepted_is ∙ p.queue_is, p.sent_is, Reach-room run (omega arith))
