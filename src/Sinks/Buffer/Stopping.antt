-- ===== src/Sinks/Buffer/Stopping.antt =====
-- What becomes of results once a sink has been stopped (internal/sink).
use mathlib.Core.List.{append-nil, append_assoc}
use policy_agent.Prelude.{
  ◌+◌, ◌≤◌, true, List, [], ◌∷◌, ◌++◌, returns, length, length-append, ◌≡◌, refl, sym, ap, ◌∙◌,
  arith,
}
use policy_agent.Domain.{PolicyValidation}
use policy_agent.Sinks.Buffer.{
  result_chan_size, Worker, Buffer, empty, stop, Move, write, start, take_result, halt, leave,
  Reach, here, more,
}
use policy_agent.Sinks.Buffer.Runs.{Reach-room}

module _ {Out : Type 0} (w : Worker Out) where
  pub halt-is :
      (s : Buffer Out) {t : Buffer Out} → stop s ≡ returns t → t ≡ record s { stopped = true }
  unfolding stop
  halt-is s e = ground arith

  -- `t` is `s` after further writes at most, which only fill the channel.
  pub record Abandoned (s t : Buffer Out) : Type 0 where
    pub sent_is : t.sent ≡ s.sent
    pub exited_is : t.exited ≡ true
    pub late : List PolicyValidation
    pub queue_is : t.queue ≡ s.queue ++ late
    pub accepted_is : t.accepted ≡ s.accepted ++ late

  Abandoned-Move : {s t u : Buffer Out} → Move w t u → Abandoned s t → Abandoned s u
  unfolding stop
  Abandoned-Move {s} (write r room e) p = rw e (record {
    sent_is = p.sent_is;
    exited_is = p.exited_is;
    late = p.late ++ r ∷ [];
    queue_is = ap (λ l. l ++ r ∷ []) p.queue_is ∙ append_assoc s.queue _ _;
    accepted_is = ap (λ l. l ++ r ∷ []) p.accepted_is ∙ append_assoc s.accepted _ _;
  })
  Abandoned-Move (start a e) p = rw e (record {
    sent_is = p.sent_is;
    exited_is = p.exited_is;
    late = p.late;
    queue_is = p.queue_is;
    accepted_is = p.accepted_is;
  })
  Abandoned-Move (take_result r rs a b c e) p = ground arith
  Abandoned-Move {t} (halt e) p =
      let f = halt-is t e in
      rw f (record {
        sent_is = p.sent_is;
        exited_is = p.exited_is;
        late = p.late;
        queue_is = p.queue_is;
        accepted_is = p.accepted_is;
      })
  Abandoned-Move (leave a b e) p = rw e (record {
    sent_is = p.sent_is;
    exited_is = refl;
    late = p.late;
    queue_is = p.queue_is;
    accepted_is = p.accepted_is;
  })

  Reach-Abandoned : {s t : Buffer Out} → s.exited ≡ true → Reach w s t → Abandoned s t
  Reach-Abandoned {s} h here = record {
    sent_is = refl;
    exited_is = h;
    late = [];
    queue_is = sym (append-nil s.queue);
    accepted_is = sym (append-nil s.accepted);
  }
  Reach-Abandoned h (more step run) = Abandoned-Move step (Reach-Abandoned h run)

  -- Once the worker of a sink has returned, nothing more is sent: what waited in the channel and
  -- what is written later stays there, for good, and `Write` accepts no more results than there was
  -- room for then.
  pub Reach-Loses :
      (s t : Buffer Out)
      → Reach w empty s
      → s.exited ≡ true
      → Reach w s t
      → (t.sent ≡ s.sent)
        × (late : List PolicyValidation) × (t.queue ≡ s.queue ++ late)
        × (t.accepted ≡ s.accepted ++ late)
        × (length s.queue + length late ≤ result_chan_size)
  Reach-Loses s t run h next =
      let p = Reach-Abandoned h next in
      let room = Reach-room w next (Reach-room w run (omega arith)) in
      (
        p.sent_is,
        p.late,
        p.queue_is,
        p.accepted_is,
        omega (arith, room, ap length p.queue_is, length-append s.queue p.late),
      )
