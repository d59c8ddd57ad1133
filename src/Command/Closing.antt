-- ===== src/Command/Closing.antt =====
-- The end of cmd/api/main.go: requests that come and go beside `main`, from `ListenAndServe` to the
-- deferred calls. Of net/http it is used that `Shutdown` closes the listener first, and returns nil only
-- when no request is in flight, and an error when its context ends before that. A stream of events is a
-- request in flight until its client leaves. The goroutine that reconnects, and the turns of the deferred
-- `rmq.Close()`, are those of Queue.Link.
use pdf_generator.Prelude.{ℕ, suc, ◌≡◌, Bool, true, false, none, some}
use pdf_generator.Go.{GoError, Failure}
use pdf_generator.World.{Outside, Log}
use pdf_generator.Queue.Connection.{RabbitMq}
use pdf_generator.Queue.Link.{Link, LinkStep, returned, fresh}

-- Where `main` stands: at `<-quit`, in `Shutdown`, behind it with its answer, behind `cancel()`, behind
-- the deferred `rmq.Close()`, behind the deferred `pool.Close()`; or the process has ended by `os.Exit`.
pub data Stage : Type 0 where
  waiting draining : Stage
  drained cancelled queue_closed pool_closed : Failure → Stage
  exited : ℕ → Stage

-- `in_flight` is the number of requests that are being handled; `link` has the connection to RabbitMQ, which
-- the goroutines share, and the log.
pub record Process : Type 0 where
  pub stage : Stage
  pub listening : Bool
  pub in_flight : ℕ
  pub link : Link

-- The goroutines run until the process ends.
abbrev pub is_running : Stage → Bool
is_running (exited _) = false
is_running (pool_closed _) = false
is_running _ = true

module _ (o : Outside) where
  pub data ProcessStep : Process → Process → Type 0 where
    accept :
        (s : Process)
        → is_running s.stage ≡ true
        → s.listening ≡ true
        → ProcessStep s (record s { in_flight = suc s.in_flight })
    -- a handler ends; what it did stands in the log
    answer :
        (s : Process) (n : ℕ) (log : Log)
        → is_running s.stage ≡ true
        → s.in_flight ≡ suc n
        → ProcessStep s (record s { in_flight = n; link = record s.link { log = log } })
    -- `ListenAndServe` failed before `Shutdown`, and its goroutine calls `os.Exit(1)`
    listen_failed :
        (s : Process) → s.stage ≡ waiting → ProcessStep s (record s { stage = exited 1 })
    -- `<-quit`, and `Shutdown` closes the listener
    signal :
        (s : Process)
        → s.stage ≡ waiting
        → ProcessStep s (record s { stage = draining; listening = false })
    shut_down :
        (s : Process)
        → s.stage ≡ draining
        → s.in_flight ≡ 0
        → ProcessStep s (record s { stage = drained none })
    timed_out :
        (s : Process) (e : GoError)
        → s.stage ≡ draining
        → ProcessStep s (record s { stage = drained (some e) })
    cancel :
        (s : Process) (f : Failure)
        → s.stage ≡ drained f
        → ProcessStep s (record s { stage = cancelled f })
    -- a turn of `reconnectLoop`
    reconnect :
        (s : Process) (l : Link)
        → is_running s.stage ≡ true
        → LinkStep o s.link l
        → l.closer ≡ s.link.closer
        → ProcessStep s (record s { link = l })
    -- a turn of the deferred `rmq.Close()`, and its return
    close_queue :
        (s : Process) (f : Failure) (l : Link)
        → s.stage ≡ cancelled f
        → LinkStep o s.link l
        → l.loop ≡ s.link.loop
        → ProcessStep s (record s { link = l })
    end_close :
        (s : Process) (f : Failure)
        → s.stage ≡ cancelled f
        → s.link.closer ≡ returned
        → ProcessStep s (record s { stage = queue_closed f })
    close_pool :
        (s : Process) (f : Failure)
        → s.stage ≡ queue_closed f
        → ProcessStep s (record s { stage = pool_closed f })

  pub data ProcessReach (s : Process) : Process → Type 0 where
    here : ProcessReach s s
    next : {t u : Process} → ProcessReach s t → ProcessStep t u → ProcessReach s u

-- The server has begun to listen.
abbrev pub listening_from : RabbitMq → Log → Process
listening_from rmq log = record {
  stage = waiting;
  listening = true;
  in_flight = 0;
  link = fresh rmq log;
}

-- The answer of `Shutdown`, where it has returned.
abbrev pub IsAnswered : Stage → Failure → Type 0
IsAnswered waiting f = ⊥
IsAnswered draining f = ⊥
IsAnswered (exited _) f = ⊥
IsAnswered (drained g) f = g ≡ f
IsAnswered (cancelled g) f = g ≡ f
IsAnswered (queue_closed g) f = g ≡ f
IsAnswered (pool_closed g) f = g ≡ f
