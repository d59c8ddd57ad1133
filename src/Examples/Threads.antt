-- ===== src/Examples/Threads.antt =====
-- internal/worker/worker.go as goroutines: two workers, of which one takes a delivery before the
-- context is cancelled.
use pdf_generator.Prelude.{ℕ, ◌+◌, ◌≡◌, refl, true, [], ◌∷◌, ◌++◌, count_if}
use pdf_generator.Worker.Pool.{Delivery}
use pdf_generator.Worker.Settlement.{settles}
use pdf_generator.Worker.Tags.{has_tag}
use pdf_generator.Worker.System.{
  stopped, Sys, spawn, spawned, signal, stop, arrive, see_cancelled, take, process, done, Reach,
  here, next, initial, taken_on, arrived_on,
}
use pdf_generator.Worker.Crew.{alive}
use pdf_generator.Worker.Shutdown.{stop-settles}
use pdf_generator.Worker.Progress.{stop-returns}
use pdf_generator.Examples.Samples.{outside, pool, delivery}

abbrev other_delivery : Delivery
other_delivery = record { tag = 8; body = "?" }

-- Two workers, two deliveries, and the first is taken.
abbrev busy_run : (s : Sys) × Reach outside pool (initial []) s
busy_run = (
  _,
  next
      (next
        (next
          (next (next (next here (spawn _ refl refl)) (spawn _ refl refl)) (spawned _ refl refl))
          (arrive _ delivery refl))
        (arrive _ other_delivery refl))
      (take _ 0 delivery (other_delivery ∷ []) refl refl),
)

-- The signal comes while the first worker is in `processMessage`.
abbrev stopping_run : (s : Sys) × Reach outside pool (initial []) s
stopping_run = (_, next (busy_run.1) (signal _ refl))

-- Both workers end, and `Stop` returns.
abbrev stopped_run : (s : Sys) × Reach outside pool (initial []) s
stopped_run = (
  _,
  next
      (next
        (next
          (next
            (next (next (stopping_run.1) (see_cancelled _ 1 refl refl)) (process _ 0 delivery refl))
            (see_cancelled _ 0 refl refl))
          (done _ 1 1 refl refl))
        (done _ 0 0 refl refl))
      (stop _ refl refl),
)

stop-settles_example :
    ((tag : ℕ)
      → count_if (settles tag) stopped_run.0.log
        ≡ count_if (settles tag) [] + count_if (has_tag tag) (taken_on stopped_run.1))
    × (arrived_on stopped_run.1 ≡ taken_on stopped_run.1 ++ stopped_run.0.buffer)
    × ((i : ℕ) → alive (stopped_run.0.workers i) ≡ 0)
stop-settles_example =
    stop-settles outside pool [] (record { repo = refl; processor_repo = refl }) stopped_run.1 refl

stop-returns_example :
    (t : Sys) × (r : Reach outside pool stopping_run.0 t) × (taken_on r ≡ []) × (t.main ≡ stopped)
stop-returns_example = stop-returns outside pool [] stopping_run.1 refl

-- The connection is lost with one delivery in the channel, while the first worker is at work.
abbrev lost : Sys
lost = record busy_run.0 { closed = true }

abbrev lost_run : (s : Sys) × Reach outside pool lost s
lost_run = (_, next here (process lost 0 delivery refl))
