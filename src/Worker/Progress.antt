-- ===== src/Worker/Progress.antt =====
-- After `cancel` the goroutines can always end, and `Stop` return: no deadlock.
use native.Mathlib.Decide.{dec_lt}
use mathlib.Core.List.{append-nil, append_assoc}
use pdf_generator.Prelude.{
  ℕ, zero, suc, ◌<◌, ◌≡◌, refl, sym, ap, ◌∙◌, [], ◌++◌, arith, sum_below, sum_below-zero,
}
use pdf_generator.World.{Outside, Log}
use pdf_generator.Worker.Pool.{Pool, Delivery}
use pdf_generator.Worker.System.{
  Phase, unborn, waiting, busy, returned, gone, stopping, stopped, Sys, Step, stop, see_cancelled,
  process, done, Reach, here, next, initial, step_taken, taken_on,
}
use pdf_generator.Worker.Crew.{alive, Inv, Step-Inv, Reach-Inv, counter-positive}

module _ {o : Outside} {p : Pool} where
  abbrev pub join : {s t u : Sys} → Reach o p s t → Reach o p t u → Reach o p s u
  join r here = r
  join r (next r' st) = next (join r r') st

  pub taken_on-join :
      {s t u : Sys} (r : Reach o p s t) (r' : Reach o p t u)
      → taken_on (join r r') ≡ taken_on r ++ taken_on r'
  taken_on-join r here = sym (append-nil (taken_on r))
  taken_on-join r (next r' st) =
      ap (λ xs. xs ++ step_taken st) (taken_on-join r r')
      ∙ append_assoc (taken_on r) (taken_on r') (step_taken st)

-- A way through `Stop` on which no delivery is taken and no goroutine begins.
record Way (o : Outside) (p : Pool) (s t : Sys) : Type 0 where
  path : Reach o p s t
  none_taken : taken_on path ≡ []
  inv : Inv t
  in_stop : t.main ≡ stopping
  same_started : t.started ≡ s.started
  still_gone : (i : ℕ) → alive (s.workers i) ≡ 0 → alive (t.workers i) ≡ 0

-- One goroutine comes to its end.
abbrev Retired : Outside → Pool → Sys → ℕ → Type 0
Retired o p s i = (t : Sys) × Way o p s t × (alive (t.workers i) ≡ 0)

module _ {o : Outside} {p : Pool} where
  Way-join : {s t u : Sys} → Way o p s t → Way o p t u → Way o p s u
  Way-join a b = record {
    path = join a.path b.path;
    none_taken = rw (taken_on-join a.path b.path, a.none_taken) b.none_taken;
    inv = b.inv;
    in_stop = b.in_stop;
    same_started = b.same_started ∙ a.same_started;
    still_gone = λ i h. b.still_gone i (a.still_gone i h);
  }

  Way-step :
      {s t : Sys} (st : Step o p s t)
      → step_taken st ≡ []
      → Inv s
      → t.main ≡ stopping
      → t.started ≡ s.started
      → ((i : ℕ) → alive (s.workers i) ≡ 0 → alive (t.workers i) ≡ 0)
      → Way o p s t
  Way-step st quiet v main same keeps = record {
    path = next here st;
    none_taken = quiet;
    inv = Step-Inv st v;
    in_stop = main;
    same_started = same;
    still_gone = keeps;
  }

  Way-here : (s : Sys) → Inv s → s.main ≡ stopping → Way o p s s
  Way-here s v main = record {
    path = here;
    none_taken = refl;
    inv = v;
    in_stop = main;
    same_started = refl;
    still_gone = λ i h. h;
  }

  retire_returned :
      (s : Sys) (i : ℕ) → Inv s → s.main ≡ stopping → s.workers i ≡ returned → Retired o p s i
  retire_returned s i v main q =
      let (n, left) = counter-positive v i (rw q refl) in
      (_, Way-step (done s i n q left) refl v main refl (λ j h. ground arith), ground arith)

  retire_waiting :
      (s : Sys) (i : ℕ) → Inv s → s.main ≡ stopping → s.workers i ≡ waiting → Retired o p s i
  retire_waiting s i v main q =
      let w =
        Way-step (see_cancelled s i q (v.leaving (rw main refl))) refl v main refl
          (λ j h. ground arith) in
      let (t, w', e) = retire_returned _ i w.inv main (ground arith) in (t, Way-join w w', e)

  retire_busy :
      (s : Sys) (i : ℕ) (d : Delivery)
      → Inv s
      → s.main ≡ stopping
      → s.workers i ≡ busy d
      → Retired o p s i
  retire_busy s i d v main q =
      let w = Way-step (process s i d q) refl v main refl (λ j h. ground arith) in
      let (t, w', e) = retire_waiting _ i w.inv main (ground arith) in (t, Way-join w w', e)

  retire :
      (s : Sys) (i : ℕ) (w : Phase) → Inv s → s.main ≡ stopping → s.workers i ≡ w → Retired o p s i
  retire s i unborn v main q = (s, Way-here s v main, rw q refl)
  retire s i gone v main q = (s, Way-here s v main, rw q refl)
  retire s i waiting v main q = retire_waiting s i v main q
  retire s i (busy d) v main q = retire_busy s i d v main q
  retire s i returned v main q = retire_returned s i v main q

  retire_below :
      (n : ℕ) (s : Sys)
      → Inv s
      → s.main ≡ stopping
      → (t : Sys) × Way o p s t × ((i : ℕ) → i < n → alive (t.workers i) ≡ 0)
  retire_below zero s v main = (s, Way-here s v main, λ i lt. absurd (omega arith))
  retire_below (suc n) s v main =
      let (t, w, below) = retire_below n s v main in
      let (u, w', last) = retire t n (t.workers n) w.inv w.in_stop refl in
      (
        u,
        Way-join w w',
        λ i lt. elim (dec_lt i n) [
          | yes lt' ↦ w'.still_gone i (below i lt')
          | no above ↦ let e : i ≡ n = omega (arith, above) in rw e last
        ],
      )

-- In whatever state `main` waits in `Stop`, the goroutines can end without taking another delivery, and
-- `Stop` then returns.
pub stop-returns :
    (o : Outside) (p : Pool) (log : Log) {s : Sys}
    → Reach o p (initial log) s
    → s.main ≡ stopping
    → (t : Sys) × (r : Reach o p s t) × (taken_on r ≡ []) × (t.main ≡ stopped)
stop-returns o p log {s} r main =
    let (t, w, ended) = retire_below s.started s (Reach-Inv log r) main in
    let none_alive : sum_below (λ i. alive (t.workers i)) t.started ≡ 0 =
      sum_below-zero (λ i. alive (t.workers i)) t.started
        (λ i lt. ended i (rw (w.same_started) at lt)) in
    (
      _,
      next w.path (stop t w.in_stop (omega (arith, w.inv.crew.counted, none_alive))),
      append-nil (taken_on w.path) ∙ w.none_taken,
      refl,
    )
