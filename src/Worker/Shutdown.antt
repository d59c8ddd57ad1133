-- ===== src/Worker/Shutdown.antt =====
-- What the pool has done when `Stop` returns, and that it can always return.
use pdf_generator.Prelude.{
  update, ℕ, suc, ◌+◌, ◌≡◌, ◌≢◌, refl, sym, ap, ◌∙◌, true, [], ◌∷◌, ◌++◌, arith, count_if,
  count_if-append, sum_below, sum_below-eq, sum_below-update, sum_below-zero,
}
use mathlib.Core.List.{append-nil, append_assoc}
use pdf_generator.World.{Outside, Log}
use pdf_generator.Queue.Connection.{close}
use pdf_generator.Worker.Pool.{Pool}
use pdf_generator.Worker.Settlement.{settles}
use pdf_generator.Worker.Tags.{has_tag, IsWired, process_message-tags}
use pdf_generator.Worker.System.{
  Phase, unborn, waiting, busy, returned, gone, Sys, at_phase, Step, spawn, spawned, signal, stop,
  finish, arrive, shut, see_cancelled, see_closed, take, process, done, Reach, here, next, initial,
  step_taken, step_arrived, taken_on, arrived_on,
}
use pdf_generator.Worker.Crew.{alive, Crew-below, is_over, Inv, Reach-Inv, over-gone}

-- The deliveries with the tag that a goroutine has in hand.
abbrev in_hand : ℕ → Phase → ℕ
in_hand tag (busy d) = count_if (has_tag tag) (d ∷ [])
in_hand tag _ = 0

abbrev all_in_hand : ℕ → Sys → ℕ
all_in_hand tag s = sum_below (λ i. in_hand tag (s.workers i)) s.started

in_hand-alive : (tag : ℕ) (w : Phase) → alive w ≡ 0 → in_hand tag w ≡ 0
in_hand-alive tag unborn h = refl
in_hand-alive tag waiting h = absurd (omega (arith, h))
in_hand-alive tag (busy d) h = absurd (omega (arith, h))
in_hand-alive tag returned h = refl
in_hand-alive tag gone h = refl

module _ {o : Outside} {p : Pool} where
  step-order :
      {s t : Sys} (st : Step o p s t) → s.buffer ++ step_arrived st ≡ step_taken st ++ t.buffer
  step-order (arrive s d h) = refl
  step-order (take s i d ds w q) = append-nil s.buffer ∙ q
  step-order (spawn s _ _) = append-nil s.buffer
  step-order (spawned s _ _) = append-nil s.buffer
  step-order (signal s _) = append-nil s.buffer
  step-order (stop s _ _) = append-nil s.buffer
  step-order (finish s _) = append-nil s.buffer
  step-order (shut s _) = append-nil s.buffer
  step-order (see_cancelled s _ _ _) = append-nil s.buffer
  step-order (see_closed s _ _ _ _) = append-nil s.buffer
  step-order (process s _ _ _) = append-nil s.buffer
  step-order (done s _ _ _ _) = append-nil s.buffer

  -- The workers take the deliveries in the order in which they were sent, each once: what waited and
  -- was sent meanwhile is what was taken, and then what waits now.
  pub deliveries-order :
      {s t : Sys} (r : Reach o p s t) → s.buffer ++ arrived_on r ≡ taken_on r ++ t.buffer
  deliveries-order {s} here = append-nil s.buffer
  deliveries-order {s} {t} (next {t = m} r st) =
      sym (append_assoc s.buffer (arrived_on r) (step_arrived st))
      ∙ ap (λ xs. xs ++ step_arrived st) (deliveries-order r)
      ∙ append_assoc (taken_on r) m.buffer (step_arrived st)
      ∙ ap (λ xs. taken_on r ++ xs) (step-order st)
      ∙ sym (append_assoc (taken_on r) (step_taken st) t.buffer)

module _ (o : Outside) (p : Pool) (wired : IsWired o p) (tag : ℕ) where
  -- The settlements of the tag so far, and those that are still to come from the goroutines.
  abbrev due : Sys → ℕ
  due s = count_if (settles tag) s.log + all_in_hand tag s

  in_hand-move :
      (s : Sys) (i : ℕ) (v w : Phase)
      → Inv s
      → s.workers i ≡ w
      → w ≢ unborn
      → all_in_hand tag (at_phase s i v) + in_hand tag w ≡ all_in_hand tag s + in_hand tag v
  in_hand-move s i v w h q begun =
      ap (λ x. all_in_hand tag (at_phase s i v) + in_hand tag x) (sym q)
      ∙ sum_below-update (in_hand tag) s.workers i v s.started
          (Crew-below h.crew i (λ e. begun (sym q ∙ e)))

  in_hand-spawn :
      (s : Sys)
      → sum_below (λ i. in_hand tag (update s.workers s.started waiting i)) (suc s.started)
        ≡ all_in_hand tag s
  in_hand-spawn s = ground (
    arith,
    sum_below-eq (λ i. in_hand tag (update s.workers s.started waiting i))
        (λ i. in_hand tag (s.workers i)) s.started (λ i below. ground arith),
  )

  close-due :
      (s : Sys) → count_if (settles tag) (close o p.rmq s.log).1 ≡ count_if (settles tag) s.log
  unfolding close
  close-due s = ground arith

  step-due :
      {s t : Sys} (st : Step o p s t)
      → Inv s
      → due t ≡ due s + count_if (has_tag tag) (step_taken st)
  step-due (spawn s q lt) h = omega (arith, in_hand-spawn s)
  step-due (spawned s q le) h = omega arith
  step-due (signal s q) h = omega arith
  step-due (stop s q z) h = omega arith
  step-due (finish s q) h = omega (arith, close-due s)
  step-due (arrive s d q) h = omega arith
  step-due (shut s q) h = omega arith
  step-due (see_cancelled s i q c) h =
      omega (arith, in_hand-move s i returned waiting h q (λ e. cc))
  step-due (see_closed s i q e c) h = omega (arith, in_hand-move s i returned waiting h q (λ e. cc))
  step-due (take s i d ds q e) h = omega (arith, in_hand-move s i (busy d) waiting h q (λ e. cc))
  step-due (process s i d q) h = omega (
    arith,
    in_hand-move s i waiting (busy d) h q (λ e. cc),
    process_message-tags o p wired d tag s.log,
  )
  step-due (done s i n q left) h = omega (arith, in_hand-move s i gone returned h q (λ e. cc))

  Reach-due :
      (log : Log) {s : Sys} (r : Reach o p (initial log) s)
      → due s ≡ count_if (settles tag) log + count_if (has_tag tag) (taken_on r)
  Reach-due log here = omega arith
  Reach-due log (next r st) = omega (
    arith,
    Reach-due log r,
    step-due st (Reach-Inv log r),
    count_if-append (has_tag tag) (taken_on r) (step_taken st),
  )

-- Where the two repositories are those that `main` makes: when `Stop` has returned, also after the
-- deferred calls, no goroutine of a worker is left, and the log holds for each tag as many settlements more
-- than at the start as deliveries with that tag were taken, in the order in which they were sent.
pub stop-settles :
    (o : Outside) (p : Pool) (log : Log) {s : Sys}
    → IsWired o p
    → (r : Reach o p (initial log) s) → is_over s.main ≡ true
    → ((tag : ℕ)
        → count_if (settles tag) s.log
          ≡ count_if (settles tag) log + count_if (has_tag tag) (taken_on r))
      × (arrived_on r ≡ taken_on r ++ s.buffer)
      × ((i : ℕ) → alive (s.workers i) ≡ 0)
stop-settles o p log {s} wired r over =
    let v = Reach-Inv log r in
    let left = over-gone v over in
    (
      λ tag. omega (
        arith,
        Reach-due o p wired tag log r,
        sum_below-zero (λ i. in_hand tag (s.workers i)) s.started
            (λ i below. in_hand-alive tag (s.workers i) (left i)),
      ),
      deliveries-order r,
      left,
    )
