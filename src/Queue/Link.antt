-- ===== src/Queue/Link.antt =====
-- `reconnectLoop` beside `Close`: two goroutines and the lock `mu`. A publisher, which holds the lock
-- for reading, changes nothing of this.
use pdf_generator.Prelude.{ℕ, ◌≡◌, ◌≢◌, true, false, none, some}
use pdf_generator.Go.{GoError}
use pdf_generator.World.{Outside, Log}
use pdf_generator.Queue.Connection.{RabbitMq, close_old_channel, close_old_connection}
use pdf_generator.Queue.Reconnect.{second, next_backoff, attempt}

-- Where `reconnectLoop` is: in its `select`, before the lock of `handleReconnect`, in a round of it
-- with the lock and a backoff, or returned.
pub data LoopPhase : Type 0 where
  watching locking : LoopPhase
  trying : ℕ → LoopPhase
  ended : LoopPhase

-- Where `Close` is: not called, before the lock, behind `close(r.done)` with the lock, or returned.
pub data ClosePhase : Type 0 where
  not_called waiting closing returned : ClosePhase

pub record Link : Type 0 where
  pub rmq : RabbitMq
  pub log : Log
  pub loop : LoopPhase
  pub closer : ClosePhase

-- What `Close` does behind `close(r.done)`.
abbrev pub close_both : Outside → RabbitMq → Log → Log
close_both o r log = (close_old_connection o r.conn (close_old_channel r.ch log).1).1

pub data LinkStep (o : Outside) : Link → Link → Type 0 where
  -- the connection or the channel reports that it is closed
  notice : (s : Link) → s.loop ≡ watching → LinkStep o s (record s { loop = locking })
  stop :
      (s : Link)
      → s.loop ≡ watching
      → s.rmq.closed ≡ true
      → LinkStep o s (record s { loop = ended })
  lock_loop :
      (s : Link)
      → s.loop ≡ locking
      → s.closer ≢ closing
      → LinkStep o s (record s { loop = trying second })
  see_done :
      (s : Link) (b : ℕ)
      → s.loop ≡ trying b
      → s.rmq.closed ≡ true
      → LinkStep o s (record s { loop = watching })
  fail :
      (s : Link) (b : ℕ) (e : GoError)
      → s.loop ≡ trying b
      → s.rmq.closed ≡ false
      → (attempt o b s.rmq s.log).0.0 ≡ some e
      → LinkStep o s (record s {
        rmq = (attempt o b s.rmq s.log).0.1;
        log = (attempt o b s.rmq s.log).1;
        loop = trying (next_backoff b);
      })
  succeed :
      (s : Link) (b : ℕ)
      → s.loop ≡ trying b
      → s.rmq.closed ≡ false
      → (attempt o b s.rmq s.log).0.0 ≡ none
      → LinkStep o s (record s {
        rmq = (attempt o b s.rmq s.log).0.1;
        log = (attempt o b s.rmq s.log).1;
        loop = watching;
      })
  call : (s : Link) → s.closer ≡ not_called → LinkStep o s (record s { closer = waiting })
  lock_close :
      (s : Link)
      → s.closer ≡ waiting
      → ((b : ℕ) → s.loop ≢ trying b)
      → LinkStep o s (record s { rmq = record s.rmq { closed = true }; closer = closing })
  return :
      (s : Link)
      → s.closer ≡ closing
      → LinkStep o s (record s { log = close_both o s.rmq s.log; closer = returned })

-- What `NewRabbitMQ` starts from.
abbrev pub fresh : RabbitMq → Log → Link
fresh r log = record { rmq = r; log = log; loop = watching; closer = not_called }

pub data Later (o : Outside) (s : Link) : Link → Type 0 where
  now : Later o s s
  then_ : {t u : Link} → Later o s t → LinkStep o t u → Later o s u
