-- ===== src/Worker/System.antt =====
-- internal/worker/worker.go: `Start`, `worker` and `Stop` as goroutines that interleave, with the end
-- of cmd/worker/main.go. The library's channel of deliveries is its buffer, oldest first, and whether
-- it is closed. `process` handles a message in one step, so the acts of one message stand together in
-- the log. The context is cancelled by `main` alone, and the goroutine that reconnects is that of
-- Queue.Link.
use pdf_generator.Prelude.{update, ℕ, suc, ◌≡◌, Bool, true, false, List, [], ◌∷◌, ◌++◌}
use pdf_generator.Prelude.Int.{pos, ltb_ℤ}
use pdf_generator.World.{Outside, Log}
use pdf_generator.Queue.Connection.{close}
use pdf_generator.Worker.Pool.{Pool, Delivery, process_message}

-- How far a goroutine of `worker` has come: not begun, at its `select`, in `processMessage`, out of the
-- loop with `wg.Done` before it, and at its end.
pub data Phase : Type 0 where
  unborn waiting : Phase
  busy : Delivery → Phase
  returned gone : Phase

-- How far `main` has come: in the loop of `Start`, at `<-quit`, in `Stop`, after it, and at its end.
pub data MainPhase : Type 0 where
  starting running stopping stopped ended : MainPhase

-- `started` is the loop variable of `Start`, and `wg` the counter of the WaitGroup.
pub record Sys : Type 0 where
  pub main : MainPhase
  pub started : ℕ
  pub workers : ℕ → Phase
  pub wg : ℕ
  pub cancelled : Bool
  pub buffer : List Delivery
  pub closed : Bool
  pub log : Log

abbrev pub at_phase : Sys → ℕ → Phase → Sys
at_phase s i p = record s { workers = update s.workers i p }

module _ (o : Outside) (p : Pool) where
  pub data Step : Sys → Sys → Type 0 where
    -- `wg.Add(1)` and `go p.worker(ctx, i, msgs)`
    spawn :
        (s : Sys)
        → s.main ≡ starting
        → ltb_ℤ (pos s.started) p.concurrency ≡ true
        → Step s (record (at_phase s s.started waiting) { wg = suc s.wg; started = suc s.started })
    spawned :
        (s : Sys)
        → s.main ≡ starting
        → ltb_ℤ (pos s.started) p.concurrency ≡ false
        → Step s (record s { main = running })
    -- `<-quit` and `cancel()`
    signal : (s : Sys) → s.main ≡ running → Step s (record s { main = stopping; cancelled = true })
    -- `wg.Wait()` returns
    stop : (s : Sys) → s.main ≡ stopping → s.wg ≡ 0 → Step s (record s { main = stopped })
    -- the deferred `rmq.Close()`
    finish :
        (s : Sys)
        → s.main ≡ stopped
        → Step s (record s { main = ended; log = (close o p.rmq s.log).1 })
    -- the library sends a delivery, or closes the channel
    arrive :
        (s : Sys) (d : Delivery)
        → s.closed ≡ false
        → Step s (record s { buffer = s.buffer ++ d ∷ [] })
    shut : (s : Sys) → s.closed ≡ false → Step s (record s { closed = true })
    -- the three outcomes of the `select`
    see_cancelled :
        (s : Sys) (i : ℕ)
        → s.workers i ≡ waiting
        → s.cancelled ≡ true
        → Step s (at_phase s i returned)
    see_closed :
        (s : Sys) (i : ℕ)
        → s.workers i ≡ waiting
        → s.buffer ≡ []
        → s.closed ≡ true
        → Step s (at_phase s i returned)
    take :
        (s : Sys) (i : ℕ) (d : Delivery) (ds : List Delivery)
        → s.workers i ≡ waiting
        → s.buffer ≡ d ∷ ds
        → Step s (record (at_phase s i (busy d)) { buffer = ds })
    process :
        (s : Sys) (i : ℕ) (d : Delivery)
        → s.workers i ≡ busy d
        → Step s (record (at_phase s i waiting) { log = (process_message o p d s.log).1 })
    -- the deferred `wg.Done()`, which panics at 0
    done :
        (s : Sys) (i n : ℕ)
        → s.workers i ≡ returned
        → s.wg ≡ suc n
        → Step s (record (at_phase s i gone) { wg = n })

  pub data Reach (s : Sys) : Sys → Type 0 where
    here : Reach s s
    next : {t u : Sys} → Reach s t → Step t u → Reach s u

abbrev pub initial : Log → Sys
initial log = record {
  main = starting;
  started = 0;
  workers = λ _. unborn;
  wg = 0;
  cancelled = false;
  buffer = [];
  closed = false;
  log = log;
}

-- What a step takes from the channel, and what it puts there.
abbrev pub step_taken : {o : Outside} {p : Pool} {s t : Sys} → Step o p s t → List Delivery
step_taken (take s i d ds w q) = d ∷ []
step_taken _ = []

abbrev pub step_arrived : {o : Outside} {p : Pool} {s t : Sys} → Step o p s t → List Delivery
step_arrived (arrive s d h) = d ∷ []
step_arrived _ = []

-- The deliveries that the workers took on the way, and those that the library sent, oldest first.
abbrev pub taken_on : {o : Outside} {p : Pool} {s t : Sys} → Reach o p s t → List Delivery
taken_on here = []
taken_on (next r st) = taken_on r ++ step_taken st

abbrev pub arrived_on : {o : Outside} {p : Pool} {s t : Sys} → Reach o p s t → List Delivery
arrived_on here = []
arrived_on (next r st) = arrived_on r ++ step_arrived st
