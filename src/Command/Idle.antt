-- ===== src/Command/Idle.antt =====
-- What is still running when the API closes what it holds.
use pdf_generator.Prelude.{◌≡◌, refl, ◌∙◌, false, none, arith}
use pdf_generator.Go.{Failure}
use pdf_generator.World.{Outside, Log}
use pdf_generator.Queue.Connection.{RabbitMq}
use pdf_generator.Queue.Link.{Link, Later, now, then_, returned}
use pdf_generator.Queue.Closing.{IsLinked, step-IsLinked, fresh-IsLinked, returned-final}
use pdf_generator.Command.Closing.{
  draining, drained, queue_closed, Process, ProcessStep, accept, answer, listen_failed, signal,
  shut_down, timed_out, cancel, reconnect, close_queue, end_close, close_pool, ProcessReach, here,
  next, listening_from, IsAnswered,
}

record Inv (s : Process) : Type 0 where
  deaf : s.stage ≡ draining → s.listening ≡ false
  idle : IsAnswered s.stage none → (s.in_flight ≡ 0) × (s.listening ≡ false)
  over : (f : Failure) → s.stage ≡ queue_closed f → s.link.closer ≡ returned
  linked : IsLinked s.link

module _ {o : Outside} where
  Step-Inv : {s t : Process} → ProcessStep o s t → Inv s → Inv t
  Step-Inv (accept s run open_) v = record {
    deaf = λ q. v.deaf q;
    idle = λ a. let (none_left, deaf) = v.idle a in cc;
    over = v.over;
    linked = v.linked;
  }
  Step-Inv (answer s n log run one) v = record {
    deaf = λ q. v.deaf q;
    idle = λ a. absurd (omega (arith, one, (v.idle a).0));
    over = v.over;
    linked = record { marked = v.linked.marked; apart = v.linked.apart };
  }
  Step-Inv (listen_failed s q) v = record {
    deaf = λ q'. cc;
    idle = λ a. absurd a;
    over = λ f q'. cc;
    linked = v.linked;
  }
  Step-Inv (signal s q) v = record {
    deaf = λ q'. refl;
    idle = λ a. absurd a;
    over = λ f q'. cc;
    linked = v.linked;
  }
  Step-Inv (shut_down s q z) v = record {
    deaf = λ q'. cc;
    idle = λ a. (z, v.deaf q);
    over = λ f q'. cc;
    linked = v.linked;
  }
  Step-Inv (timed_out s e q) v = record {
    deaf = λ q'. cc;
    idle = λ a. cc;
    over = λ f q'. cc;
    linked = v.linked;
  }
  Step-Inv (cancel s f q) v = record {
    deaf = λ q'. cc;
    idle = λ a. v.idle (rw q a);
    over = λ g q'. cc;
    linked = v.linked;
  }
  Step-Inv (reconnect s l run st same) v = record {
    deaf = v.deaf;
    idle = v.idle;
    over = λ f q. same ∙ v.over f q;
    linked = step-IsLinked st v.linked;
  }
  Step-Inv (close_queue s f l q st same) v = record {
    deaf = v.deaf;
    idle = v.idle;
    over = λ g q'. cc;
    linked = step-IsLinked st v.linked;
  }
  Step-Inv (end_close s f q done) v = record {
    deaf = λ q'. cc;
    idle = λ a. v.idle (rw q a);
    over = λ g q'. done;
    linked = v.linked;
  }
  Step-Inv (close_pool s f q) v = record {
    deaf = λ q'. cc;
    idle = λ a. v.idle (rw q a);
    over = λ g q'. cc;
    linked = v.linked;
  }

  later-Inv : {s t : Process} → ProcessReach o s t → Inv s → Inv t
  later-Inv here v = v
  later-Inv (next r st) v = Step-Inv st (later-Inv r v)

start-Inv : (rmq : RabbitMq) (log : Log) → rmq.closed ≡ false → Inv (listening_from rmq log)
start-Inv rmq log open_ = record {
  deaf = λ q. cc;
  idle = λ a. absurd a;
  over = λ f q. cc;
  linked = fresh-IsLinked rmq log open_;
}

-- No request is there, and what has been done since is what the two goroutines of the link did.
record Idle (o : Outside) (old : Link) (s : Process) : Type 0 where
  answered : IsAnswered s.stage none
  quiet : s.in_flight ≡ 0
  deaf : s.listening ≡ false
  turns : Later o old s.link

module _ {o : Outside} {old : Link} where
  Step-Idle : {s t : Process} → ProcessStep o s t → Idle o old s → Idle o old t
  Step-Idle (accept s run open_) v = absurd (cc (v.deaf))
  Step-Idle (answer s n log run one) v = absurd (omega (arith, one, v.quiet))
  Step-Idle (listen_failed s q) v = absurd (rw q at (v.answered))
  Step-Idle (signal s q) v = absurd (rw q at (v.answered))
  Step-Idle (shut_down s q z) v = absurd (rw q at (v.answered))
  Step-Idle (timed_out s e q) v = absurd (rw q at (v.answered))
  Step-Idle (cancel s f q) v = record {
    answered = rw q at (v.answered);
    quiet = v.quiet;
    deaf = v.deaf;
    turns = v.turns;
  }
  Step-Idle (reconnect s l run st same) v = record {
    answered = v.answered;
    quiet = v.quiet;
    deaf = v.deaf;
    turns = then_ v.turns st;
  }
  Step-Idle (close_queue s f l q st same) v = record {
    answered = v.answered;
    quiet = v.quiet;
    deaf = v.deaf;
    turns = then_ v.turns st;
  }
  Step-Idle (end_close s f q done) v = record {
    answered = rw q at (v.answered);
    quiet = v.quiet;
    deaf = v.deaf;
    turns = v.turns;
  }
  Step-Idle (close_pool s f q) v = record {
    answered = rw q at (v.answered);
    quiet = v.quiet;
    deaf = v.deaf;
    turns = v.turns;
  }

  later-Idle : {s t : Process} → ProcessReach o s t → Idle o old s → Idle o old t
  later-Idle here v = v
  later-Idle (next r st) v = Step-Idle st (later-Idle r v)

-- Where `Shutdown` has returned nil, and later the deferred `rmq.Close()` has returned: in between, the
-- connection and the log are changed by the turns of the reconnection goroutine and of `Close` alone,
-- and by no request; and from then on nothing is asked of the outside any more, no connection takes the
-- place of the closed one, and no request is in flight or accepted. The connection was not closed when
-- the server began to listen.
pub shutdown-idle :
    (o : Outside) (rmq : RabbitMq) (log : Log) (f : Failure) {s t u : Process}
    → rmq.closed ≡ false
    → ProcessReach o (listening_from rmq log) s
    → s.stage ≡ drained none
    → ProcessReach o s t
    → t.stage ≡ queue_closed f
    → ProcessReach o t u
    → Later o s.link t.link
      × (u.link.log ≡ t.link.log)
      × (u.link.rmq ≡ t.link.rmq)
      × (u.in_flight ≡ 0)
      × (u.listening ≡ false)
shutdown-idle o rmq log f {s} {t} {u} open_ r q between end_ after =
    let at_s = later-Inv r (start-Inv rmq log open_) in
    let at_t = later-Inv between at_s in
    let (quiet, deaf) = at_s.idle (rw q refl) in
    let idle_s : Idle o s.link s = record {
      answered = rw q refl;
      quiet = quiet;
      deaf = deaf;
      turns = now;
    } in
    let idle_t = later-Idle between idle_s in
    let fresh_t : Idle o t.link t = record {
      answered = idle_t.answered;
      quiet = idle_t.quiet;
      deaf = idle_t.deaf;
      turns = now;
    } in
    let idle_u = later-Idle after fresh_t in
    let (same_log, same_rmq, _) = returned-final idle_u.turns at_t.linked (at_t.over f end_) in
    (idle_t.turns, same_log, same_rmq, idle_u.quiet, idle_u.deaf)
