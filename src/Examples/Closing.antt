-- ===== src/Examples/Closing.antt =====
-- `Close` in the middle of a reconnection, and a close notice after it.
use pdf_generator.Prelude.{◌≡◌, refl, true, []}
use pdf_generator.Queue.Connection.{connect, connect_dialed, connect_opened}
use pdf_generator.Queue.Topology.{setup}
use pdf_generator.Queue.Reconnect.{second, set_up, connect_and_setup, attempt}
use pdf_generator.Queue.Link.{
  Link, locking, trying, watching, ended, waiting, closing, returned, close_both, fresh, Later, now,
  then_, notice, lock_loop, succeed, call, lock_close, return,
}
use pdf_generator.Queue.Closing.{close-final}
use pdf_generator.Examples.Samples.{outside, rabbit}

-- The reconnection goes on while `Close` waits for the lock.
abbrev both : Link
both = record (fresh rabbit []) { loop = trying second; closer = waiting }

abbrev reconnected : Link
unfolding attempt
reconnected = record both {
  rmq = (attempt outside second rabbit []).0.1;
  log = (attempt outside second rabbit []).1;
  loop = watching;
}

abbrev marked : Link
unfolding attempt
marked = record reconnected { rmq = record reconnected.rmq { closed = true }; closer = closing }

abbrev closed : Link
unfolding attempt
closed = record marked { log = close_both outside marked.rmq marked.log; closer = returned }

before : Later outside (fresh rabbit []) closed
unfolding attempt connect_and_setup connect connect_dialed connect_opened set_up setup
before =
    then_
      (then_
        (then_
          (then_
            (then_ (then_ now (notice (fresh rabbit []) refl))
              (lock_loop (record (fresh rabbit []) { loop = locking }) refl (λ h. cc)))
            (call (record (fresh rabbit []) { loop = trying second }) refl))
          (succeed both second refl refl refl))
        (lock_close reconnected refl (λ b h. cc)))
      (return marked refl)

abbrev noticed : Link
unfolding attempt
noticed = record closed { loop = locking }

close-final_example :
    (noticed.log ≡ closed.log)
    × (noticed.rmq ≡ closed.rmq)
    × ((u : Link) × Later outside noticed u × (u.loop ≡ ended))
unfolding attempt
close-final_example =
    close-final outside rabbit [] closed noticed refl before refl (then_ now (notice closed refl))
