-- ===== src/Queue/Closing.antt =====
-- What holds once `Close` has returned, however it overlapped with reconnections.
use pdf_generator.Prelude.{ℕ, ◌≡◌, ◌≢◌, refl, ◌∙◌, Bool, true, false}
use pdf_generator.World.{Outside, Log}
use pdf_generator.Queue.Connection.{RabbitMq}
use pdf_generator.Queue.Reconnect.{second}
use pdf_generator.Queue.Recovery.{attempt-keeps}
use pdf_generator.Queue.Link.{
  LoopPhase, watching, locking, trying, ended, ClosePhase, not_called, waiting, closing, returned,
  Link, LinkStep, notice, stop, lock_loop, see_done, fail, succeed, call, lock_close, return, fresh,
  Later, now, then_,
}

-- `done` is closed once `Close` has the lock, and not before; the two do not hold the lock at once.
abbrev Marked : ClosePhase → Bool → Type 0
Marked not_called closed = closed ≡ false
Marked waiting closed = closed ≡ false
Marked closing closed = closed ≡ true
Marked returned closed = closed ≡ true

pub record IsLinked (s : Link) : Type 0 where
  pub marked : Marked s.closer s.rmq.closed
  pub apart : (b : ℕ) → s.loop ≡ trying b → s.closer ≢ closing

pub step-IsLinked : {o : Outside} {s t : Link} → LinkStep o s t → IsLinked s → IsLinked t
step-IsLinked (notice s w) v = record { marked = v.marked; apart = λ b h. cc }
step-IsLinked (stop s w c) v = record { marked = v.marked; apart = λ b h. cc }
step-IsLinked (lock_loop s w c) v = record { marked = v.marked; apart = λ b h. c }
step-IsLinked (see_done s b w c) v = record { marked = v.marked; apart = λ b' h. cc }
step-IsLinked {o} (fail s b e w c f) v = record {
  marked = rw (attempt-keeps o b s.rmq s.log).1 v.marked;
  apart = λ b' h. v.apart b w;
}
step-IsLinked {o} (succeed s b w c f) v = record {
  marked = rw (attempt-keeps o b s.rmq s.log).1 v.marked;
  apart = λ b' h. cc;
}
step-IsLinked (call s w) v = record { marked = rw w at v.marked; apart = λ b h k. cc }
step-IsLinked (lock_close s w free) v = record { marked = refl; apart = λ b h. absurd (free b h) }
step-IsLinked (return s w) v = record { marked = rw w at v.marked; apart = λ b h k. cc }

later-IsLinked : {o : Outside} {s t : Link} → Later o s t → IsLinked s → IsLinked t
later-IsLinked now v = v
later-IsLinked (then_ l step) v = step-IsLinked step (later-IsLinked l v)

pub fresh-IsLinked : (r : RabbitMq) (log : Log) → r.closed ≡ false → IsLinked (fresh r log)
fresh-IsLinked r log h = record { marked = h; apart = λ b h k. cc }

-- The client and the log are the same, and `Close` has returned.
record Idle (s t : Link) : Type 0 where
  rmq : t.rmq ≡ s.rmq
  log : t.log ≡ s.log
  over : t.closer ≡ returned

closed_of : (s : Link) → IsLinked s → s.closer ≡ returned → s.rmq.closed ≡ true
closed_of s v h = rw h at v.marked

step-Idle :
    {o : Outside} {s t : Link} → LinkStep o s t → IsLinked s → s.closer ≡ returned → Idle s t
step-Idle (notice s w) v h = record { rmq = refl; log = refl; over = h }
step-Idle (stop s w c) v h = record { rmq = refl; log = refl; over = h }
step-Idle (lock_loop s w c) v h = record { rmq = refl; log = refl; over = h }
step-Idle (see_done s b w c) v h = record { rmq = refl; log = refl; over = h }
step-Idle (fail s b e w c f) v h = cc (closed_of s v h)
step-Idle (succeed s b w c f) v h = cc (closed_of s v h)
step-Idle (call s w) v h = cc
step-Idle (lock_close s w free) v h = cc
step-Idle (return s w) v h = cc

later-Idle : {o : Outside} {s t : Link} → Later o s t → IsLinked s → s.closer ≡ returned → Idle s t
later-Idle now v h = record { rmq = refl; log = refl; over = h }
later-Idle (then_ l step) v h =
    let before = later-Idle l v h in
    let here = step-Idle step (later-IsLinked l v) before.over in
    record { rmq = here.rmq ∙ before.rmq; log = here.log ∙ before.log; over = here.over }

-- A loop that watches can return, and so can one that waits for the lock or has it.
end_from :
    (o : Outside) (t : Link) (p : LoopPhase)
    → t.loop ≡ p
    → t.rmq.closed ≡ true
    → t.closer ≡ returned
    → (u : Link) × Later o t u × (u.loop ≡ ended)
end_from o t ended w c r = (t, now, w)
end_from o t watching w c r = (record t { loop = ended }, then_ now (stop t w c), refl)
end_from o t (trying b) w c r =
    let t' = record t { loop = watching } in
    (record t' { loop = ended }, then_ (then_ now (see_done t b w c)) (stop t' refl c), refl)
end_from o t locking w c r =
    let t' = record t { loop = trying second } in
    let t'' = record t { loop = watching } in
    (
      record t'' { loop = ended },
      then_ (then_ (then_ now (lock_loop t w (λ h. cc))) (see_done t' second refl c))
          (stop t'' refl c),
      refl,
    )

-- From a state in which `Close` has returned.
pub returned-final :
    {o : Outside} {s t : Link}
    → Later o s t
    → IsLinked s
    → s.closer ≡ returned
    → (t.log ≡ s.log) × (t.rmq ≡ s.rmq) × ((u : Link) × Later o t u × (u.loop ≡ ended))
returned-final {o} {s} {t} after v h =
    let i = later-Idle after v h in
    (i.log, i.rmq, end_from o t t.loop refl (closed_of t (later-IsLinked after v) i.over) i.over)

-- In every interleaving of the reconnection goroutine with `Close`, once `Close` has returned nothing is
-- asked of the outside any more, no new connection takes the place of the closed one, and the goroutine
-- can still return. The client is not closed when the goroutine starts.
pub close-final :
    (o : Outside) (r : RabbitMq) (log : Log) (s t : Link)
    → r.closed ≡ false
    → Later o (fresh r log) s
    → s.closer ≡ returned
    → Later o s t
    → (t.log ≡ s.log) × (t.rmq ≡ s.rmq) × ((u : Link) × Later o t u × (u.loop ≡ ended))
close-final o r log s t open_ before h after =
    returned-final after (later-IsLinked before (fresh-IsLinked r log open_)) h
