-- ===== src/Worker/Draining.antt =====
-- The library closes the channel of deliveries when its connection is lost, and `worker` never asks
-- for another one.
use pdf_generator.Prelude.{◌≡◌, List, [], ℕ}
use pdf_generator.World.{Outside}
use pdf_generator.Worker.Pool.{Pool}
use pdf_generator.Worker.System.{returned, Sys, Reach, taken_on}

-- A run on which one worker takes all that waits in the channel, and then leaves its loop.
record Drained (o : Outside) (p : Pool) (s : Sys) (i : ℕ) : Type 0 where
  last : Sys
  run : Reach o p s last
  all_taken : taken_on run ≡ s.buffer
  empty : last.buffer ≡ []
  left : last.workers i ≡ returned
