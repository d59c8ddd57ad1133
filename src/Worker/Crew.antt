-- ===== src/Worker/Crew.antt =====
-- The WaitGroup counts the goroutines that have not ended, at every moment.
use native.Mathlib.Decide.{dec_lt}
use pdf_generator.Prelude.{
  update, ℕ, zero, suc, ◌+◌, ◌≤◌, ◌<◌, ◌≡◌, ◌≢◌, refl, Bool, true, false, arith, sum_below,
  sum_below-eq, sum_below-update, sum_below-none,
}
use pdf_generator.World.{Outside, Log}
use pdf_generator.Worker.Pool.{Pool}
use pdf_generator.Worker.System.{
  Phase, unborn, waiting, busy, returned, gone, MainPhase, starting, running, stopped, ended, Sys,
  at_phase, Step, spawn, spawned, signal, stop, finish, arrive, shut, see_cancelled, see_closed,
  take, process, done, Reach, here, next, initial,
}

-- Between `wg.Add(1)` and `wg.Done()`.
abbrev pub alive : Phase → ℕ
alive unborn = 0
alive gone = 0
alive _ = 1

-- Goroutines from `n` on are not begun, and the counter is the number of those that are alive.
pub record Crew (workers : ℕ → Phase) (n wg : ℕ) : Type 0 where
  pub fresh : (i : ℕ) → n ≤ i → workers i ≡ unborn
  pub counted : wg ≡ sum_below (λ i. alive (workers i)) n

pub Crew-below :
    {workers : ℕ → Phase} {n wg : ℕ} → Crew workers n wg → (i : ℕ) → workers i ≢ unborn → i < n
Crew-below {n} c i begun = elim (dec_lt i n) [
  | yes below ↦ below
  | no above ↦ absurd (begun (c.fresh i (omega arith)))
]

Crew-move :
    {workers : ℕ → Phase} {n wg : ℕ}
    → Crew workers n wg
    → (i : ℕ) (v : Phase) (wg' : ℕ) → workers i ≢ unborn
    → wg' + alive (workers i) ≡ wg + alive v
    → Crew (update workers i v) n wg'
Crew-move {workers} {n} c i v wg' begun h =
    let below = Crew-below c i begun in
    record {
      fresh = λ j above. ground (arith, c.fresh j above);
      counted = omega (arith, c.counted, h, sum_below-update alive workers i v n below);
    }

Crew-spawn :
    {workers : ℕ → Phase} {n wg : ℕ}
    → Crew workers n wg
    → Crew (update workers n waiting) (suc n) (suc wg)
Crew-spawn {workers} {n} c = record {
  fresh = λ j above. ground (arith, c.fresh j);
  counted = ground (
    arith,
    c.counted,
    sum_below-eq (λ i. alive (update workers n waiting i)) (λ i. alive (workers i)) n
        (λ i below. ground arith),
  );
}

-- `Stop` has returned.
abbrev pub is_over : MainPhase → Bool
is_over stopped = true
is_over ended = true
is_over _ = false

-- `cancel()` was called.
abbrev pub is_leaving : MainPhase → Bool
is_leaving starting = false
is_leaving running = false
is_leaving _ = true

pub record Inv (s : Sys) : Type 0 where
  pub crew : Crew s.workers s.started s.wg
  pub waited : is_over s.main ≡ true → s.wg ≡ 0
  pub leaving : is_leaving s.main ≡ true → s.cancelled ≡ true

initial-Inv : (log : Log) → Inv (initial log)
initial-Inv log = record {
  crew = record { fresh = λ i h. refl; counted = refl };
  waited = λ h. refl;
  leaving = λ h. cc;
}

-- A goroutine that goes on, the counter as before.
Inv-move :
    (s : Sys) (i : ℕ) (v : Phase)
    → Inv s
    → alive (s.workers i) ≡ 1
    → alive v ≡ 1
    → Inv (at_phase s i v)
Inv-move s i v h before after = record {
  crew = Crew-move h.crew i v s.wg (λ e. ground arith) (omega arith);
  waited = h.waited;
  leaving = h.leaving;
}

module _ {o : Outside} {p : Pool} where
  pub Step-Inv : {s t : Sys} → Step o p s t → Inv s → Inv t
  Step-Inv (spawn s q lt) h = record {
    crew = Crew-spawn h.crew;
    waited = λ over. cc;
    leaving = λ out. cc;
  }
  Step-Inv (spawned s q le) h = record { crew = h.crew; waited = λ over. cc; leaving = λ out. cc }
  Step-Inv (signal s q) h = record { crew = h.crew; waited = λ over. cc; leaving = λ out. refl }
  Step-Inv (stop s q none_left) h = record {
    crew = h.crew;
    waited = λ over. none_left;
    leaving = λ out. h.leaving (rw q refl);
  }
  Step-Inv (finish s q) h = record {
    crew = h.crew;
    waited = λ over. h.waited (rw q refl);
    leaving = λ out. h.leaving (rw q refl);
  }
  Step-Inv (arrive s d q) h = record { crew = h.crew; waited = h.waited; leaving = h.leaving }
  Step-Inv (shut s q) h = record { crew = h.crew; waited = h.waited; leaving = h.leaving }
  Step-Inv (see_cancelled s i q c) h = Inv-move s i returned h (rw q refl) refl
  Step-Inv (see_closed s i q e c) h = Inv-move s i returned h (rw q refl) refl
  Step-Inv (take s i d ds q e) h =
      let v = Inv-move s i (busy d) h (rw q refl) refl in
      record { crew = v.crew; waited = v.waited; leaving = v.leaving }
  Step-Inv (process s i d q) h =
      let v = Inv-move s i waiting h (rw q refl) refl in
      record { crew = v.crew; waited = v.waited; leaving = v.leaving }
  Step-Inv (done s i n q left) h = record {
    crew = Crew-move h.crew i gone n (λ e. cc) (rw q (omega (arith, left)));
    waited = λ over. absurd (omega (arith, left, h.waited over));
    leaving = h.leaving;
  }

  pub later-Inv : {s t : Sys} → Reach o p s t → Inv s → Inv t
  later-Inv here h = h
  later-Inv (next r st) h = Step-Inv st (later-Inv r h)

pub Reach-Inv : {o : Outside} {p : Pool} (log : Log) {s : Sys} → Reach o p (initial log) s → Inv s
Reach-Inv log r = later-Inv r (initial-Inv log)

-- Once `Stop` has returned no goroutine of a worker is left.
pub over-gone : {s : Sys} → Inv s → is_over s.main ≡ true → (i : ℕ) → alive (s.workers i) ≡ 0
over-gone {s} h over i = elim (dec_lt i s.started) [
  | yes below ↦
      sum_below-none (λ j. alive (s.workers j)) s.started
        (omega (arith, h.waited over, h.crew.counted)) i below
  | no above ↦ rw (h.crew.fresh i (omega arith)) refl
]

-- While a goroutine is alive the counter is not 0.
pub counter-positive :
    {s : Sys} → Inv s → (i : ℕ) → alive (s.workers i) ≡ 1 → (n : ℕ) × (s.wg ≡ suc n)
counter-positive {s} v i q = by_counter s.wg refl
  where
    by_counter : (n : ℕ) → s.wg ≡ n → (m : ℕ) × (s.wg ≡ suc m)
    by_counter (suc m) e = (m, e)
    by_counter zero e =
        let none_alive =
          sum_below-none (λ j. alive (s.workers j)) s.started (omega (arith, e, v.crew.counted)) i
            (Crew-below v.crew i (λ b. ground arith)) in
        absurd (omega (arith, q, none_alive))

-- `wg.Done` never finds the counter at 0, where it would panic.
pub done-counted :
    {o : Outside} {p : Pool} (log : Log) {s : Sys}
    → Reach o p (initial log) s
    → (i : ℕ) → s.workers i ≡ returned
    → (n : ℕ) × (s.wg ≡ suc n)
done-counted log r i q = counter-positive (Reach-Inv log r) i (rw q refl)
