-- ===== src/Sinks/Buffer/Delivery.antt =====
-- A worker works off every result that its sink has accepted (internal/sink).
use mathlib.Core.List.{append-nil, append_assoc}
use policy_agent.Prelude.{
  true, ◌≤◌, false, List, [], ◌∷◌, ◌++◌, length, ◌≡◌, refl, sym, ap, ◌∙◌, arith,
}
use policy_agent.Domain.{PolicyValidation}
use policy_agent.Sinks.Buffer.{
  Worker, Buffer, empty, stop, Move, write, start, take_result, halt, leave, Reach, here, more,
  handled, emitted,
}
use policy_agent.Sinks.Buffer.Runs.{
  emitted-append, Move-unstopped, Reach-unstopped, Reach-Progress, prefix, Reach-Accounted,
}

module _ {Out : Type 0} (w : Worker Out) where
  Move-running :
      {s t : Buffer Out} → Move w s t → t.stopped ≡ false → s.exited ≡ false → t.exited ≡ false
  unfolding stop
  Move-running (write r room e) h f = ground arith
  Move-running (start a e) h f = ground arith
  Move-running (take_result r rs a b c e) h f = ground arith
  Move-running (halt e) h f = ground arith
  Move-running (leave a b e) h f = ground arith

  Reach-running :
      {s t : Buffer Out} → Reach w s t → t.stopped ≡ false → s.exited ≡ false → t.exited ≡ false
  Reach-running here h f = f
  Reach-running (more step run) h f =
      Move-running step h (Reach-running run (Move-unstopped w step h) f)

  Reach-append : {s t u : Buffer Out} → Reach w s t → Reach w t u → Reach w s u
  Reach-append first here = first
  Reach-append first (more step run) = more step (Reach-append first run)

  -- Left alone, the worker empties the channel.
  drain :
      (q : List PolicyValidation) (t : Buffer Out)
      → t.queue ≡ q
      → t.started ≡ true
      → t.exited ≡ false
      → t.stopped ≡ false
      → (u : Buffer Out) × Reach w t u × (u.queue ≡ []) × (u.sent ≡ t.sent ++ emitted w q)
  drain [] t e a b c = (t, here, e, sym (append-nil t.sent))
  drain (r ∷ rs) t e a b c =
      let next : Buffer Out = record t { queue = rs; sent = t.sent ++ w.emit t.stopped r } in
      let (u, run, f, g) = drain rs next refl a b c in
      let sent =
        ap (λ z. (t.sent ++ w.emit z r) ++ emitted w rs) c
        ∙ append_assoc t.sent (w.emit false r) (emitted w rs) in
      (u, Reach-append (more (take_result r rs a b e refl) here) run, f, g ∙ sent)

  -- For a sink that has been started and not been stopped: when its worker has taken as many results
  -- as waited in the channel at some time, it has sent what it emits for every result accepted until
  -- that time, in order and before all else, whatever has been written meanwhile; and it can always
  -- go on, without any other step, until it has sent that for every result accepted so far.
  pub Reach-Delivers :
      (s t : Buffer Out)
      → Reach w empty s
      → (run : Reach w s t) → t.started ≡ true
      → t.stopped ≡ false
      → length s.queue ≤ handled run
      → ((later : List Out) × (t.sent ≡ emitted w s.accepted ++ later))
        × ((u : Buffer Out) × Reach w t u × (u.queue ≡ []) × (u.sent ≡ emitted w t.accepted))
  Reach-Delivers s t run next begun h enough =
      let (taken, accepted, sent, room) = Reach-Accounted w s run (Reach-unstopped w next h) in
      let p = Reach-Progress w next h in
      let (rest, e) =
        prefix w s.queue p.taken p.written t.queue p.queue_is (omega (arith, enough, p.count_is)) in
      let late = ap (emitted w) e ∙ emitted-append w s.queue rest in
      let early = ap (emitted w) accepted ∙ emitted-append w taken s.queue in
      let (all_taken, all_accepted, all_sent, _) = Reach-Accounted w t (Reach-append run next) h in
      let (u, on, empties, g) =
        drain t.queue t refl begun (Reach-running (Reach-append run next) h refl) h in
      (
        (
          emitted w rest,
          p.sent_is
              ∙ ap (λ l. s.sent ++ l) late
              ∙ sym (append_assoc s.sent _ _)
              ∙ ap (λ l. (l ++ emitted w s.queue) ++ emitted w rest) sent
              ∙ ap (λ l. l ++ emitted w rest) (sym early),
        ),
        (
          u,
          on,
          empties,
          g
              ∙ ap (λ l. l ++ emitted w t.queue) all_sent
              ∙ sym (ap (emitted w) all_accepted ∙ emitted-append w all_taken t.queue),
        ),
      )
