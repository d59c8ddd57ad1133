-- ===== src/Queue/Recovery.antt =====
-- When the loop of `handleReconnect` ends.
use native.Mathlib.Decide.{dec_lt}
use pdf_generator.Prelude.{
  ℕ, zero, suc, ◌-◌, ◌≤◌, ◌<◌, ◌≡◌, ◌≢◌, refl, ap, ◌∙◌, false, List, [], ◌∷◌, Option, none, some,
  arith, length, inl, inr, Option-cases,
}
use pdf_generator.Go.{Result, ok, err, Failure}
use pdf_generator.World.Amqp.{Declaration}
use pdf_generator.World.{Outside, Log, declared, slept}
use pdf_generator.Queue.Connection.{
  RabbitMqConfig, RabbitMq, connect_opened, connect_dialed, connect, close_old_channel,
  close_old_connection,
}
use pdf_generator.Queue.Plan.{plan, declare_all, setup-plan}
use pdf_generator.Queue.Reconnect.{
  next_backoff, set_up, connect_and_setup, attempt, handle_reconnect,
}

declare_all-longer :
    (o : Outside) (ch : Option ℕ) (ds : List Declaration) (log : Log)
    → length log ≤ length (declare_all o ch ds log)
declare_all-longer o ch [] log = omega arith
declare_all-longer o ch (d ∷ ds) log =
    ground (arith, declare_all-longer o ch ds (declared ch d (o.declare log ch d) ∷ log))

connect-longer : (o : Outside) (r : RabbitMq) (log : Log) → length log ≤ length (connect o r log).1
unfolding connect connect_dialed connect_opened
connect-longer o r log = ground arith

set_up-longer :
    (o : Outside) (c : Failure × RabbitMq) (log : Log) → length log ≤ length (set_up o c log).1
unfolding set_up
set_up-longer o (some e, r) log = omega arith
set_up-longer o (none, r) log =
    rw (setup-plan o r log).0 (declare_all-longer o r.ch (plan r.cfg) log)

close-longer :
    (o : Outside) (r : RabbitMq) (log : Log)
    → length log ≤ length (close_old_connection o r.conn (close_old_channel r.ch log).1).1
close-longer o r log = ground arith

attempt-longer :
    (o : Outside) (b : ℕ) (r : RabbitMq) (log : Log) → length log < length (attempt o b r log).1
unfolding attempt connect_and_setup
attempt-longer o b r log =
    let log' = (close_old_connection o r.conn (close_old_channel r.ch (slept b ∷ log)).1).1 in
    let (connected, log'') = connect o r log' in
    omega (
      arith,
      close-longer o r (slept b ∷ log),
      connect-longer o r log',
      set_up-longer o connected log'',
    )

pub connect-keeps :
    (o : Outside) (r : RabbitMq) (log : Log)
    → ((connect o r log).0.1.cfg ≡ r.cfg) × ((connect o r log).0.1.closed ≡ r.closed)
unfolding connect connect_dialed connect_opened
connect-keeps o r log = (ground arith, ground arith)

connect_opened-opens :
    (o : Outside) (r : RabbitMq) (conn : ℕ) (opened : Result ℕ) (log : Log)
    → (connect_opened o r conn opened log).0.0 ≡ none
    → (c : ℕ) × ((connect_opened o r conn opened log).0.1.ch ≡ some c)
unfolding connect_opened
connect_opened-opens o r conn (ok c) log h = (c, refl)
connect_opened-opens o r conn (err e) log h = cc

connect_dialed-opens :
    (o : Outside) (r : RabbitMq) (dialed : Result ℕ) (log : Log)
    → (connect_dialed o r dialed log).0.0 ≡ none
    → (c : ℕ) × ((connect_dialed o r dialed log).0.1.ch ≡ some c)
unfolding connect_dialed
connect_dialed-opens o r (ok conn) log h = connect_opened-opens o r conn _ _ h
connect_dialed-opens o r (err e) log h = cc

set_up-opens :
    (o : Outside) (c : Failure × RabbitMq) (log : Log) → (set_up o c log).0.0 ≡ none → c.0 ≡ none
unfolding set_up
set_up-opens o (none, r) log h = refl
set_up-opens o (some e, r) log h = cc

set_up-keeps : (o : Outside) (c : Failure × RabbitMq) (log : Log) → (set_up o c log).0.1 ≡ c.1
unfolding set_up
set_up-keeps o (some e, r) log = refl
set_up-keeps o (none, r) log = refl

module _ (o : Outside) (b : ℕ) (r : RabbitMq) (log : Log) where
  pub attempt-keeps :
      ((attempt o b r log).0.1.cfg ≡ r.cfg) × ((attempt o b r log).0.1.closed ≡ r.closed)
  unfolding attempt connect_and_setup
  attempt-keeps = (
    ap (λ (r' : RabbitMq). r'.cfg) (set_up-keeps o _ _) ∙ (connect-keeps o r _).0,
    ap (λ (r' : RabbitMq). r'.closed) (set_up-keeps o _ _) ∙ (connect-keeps o r _).1,
  )

  attempt-opens : (attempt o b r log).0.0 ≡ none → (c : ℕ) × ((attempt o b r log).0.1.ch ≡ some c)
  unfolding attempt connect_and_setup connect
  attempt-opens h =
      let (c, e) = connect_dialed-opens o r _ _ (set_up-opens o _ _ h) in
      (c, ap (λ (r' : RabbitMq). r'.ch) (set_up-keeps o _ _) ∙ e)

module _ (o : Outside) (cfg : RabbitMqConfig) where
  -- The broker can be reached, and takes the topology, in every attempt that starts after n acts.
  abbrev pub IsUpFrom : ℕ → Type 0
  IsUpFrom n =
      (b : ℕ) (r : RabbitMq) (log : Log)
      → r.cfg ≡ cfg
      → n ≤ length log
      → (attempt o b r log).0.0 ≡ none

  -- Where every attempt succeeds that starts after n acts, the loop returns with an open channel:
  -- one round more than the acts that are missing to n is enough. The client has not been closed.
  pub handle_reconnect-returns :
      (n fuel b : ℕ) (r : RabbitMq) (log : Log)
      → IsUpFrom n
      → r.cfg ≡ cfg
      → r.closed ≡ false
      → n - length log < fuel
      → (r' : RabbitMq) × ((handle_reconnect o fuel b r log).0 ≡ some r')
        × ((c : ℕ) × (r'.ch ≡ some c))
  unfolding handle_reconnect
  handle_reconnect-returns n zero b r log up same open_ enough = absurd (omega arith)
  handle_reconnect-returns n (suc fuel) b r log up same open_ enough =
      let (tried, log') = attempt o b r log in
      elim (Option-cases tried.0) [
        | inl up_now ↦ (tried.1, ground arith, attempt-opens o b r log up_now)
        | inr (e, down) ↦
            let short : length log < n = elim (dec_lt (length log) n) [
              | yes h ↦ h
              | no h ↦ cc (up b r log same (omega arith), down)
            ] in
            let (r', found, opened) =
              handle_reconnect-returns n fuel (next_backoff b) tried.1 log' up
                ((attempt-keeps o b r log).0 ∙ same) ((attempt-keeps o b r log).1 ∙ open_)
                (omega (arith, attempt-longer o b r log)) in
            (r', ground arith, opened)
      ]

  -- While every attempt fails, the loop of a client that is not closed does not return within any
  -- number of rounds.
  pub handle_reconnect-blocks :
      (fuel b : ℕ) (r : RabbitMq) (log : Log)
      → ((b' : ℕ) (r' : RabbitMq) (log' : Log) → r'.cfg ≡ cfg → (attempt o b' r' log').0.0 ≢ none)
      → r.cfg ≡ cfg
      → r.closed ≡ false
      → (handle_reconnect o fuel b r log).0 ≡ none
  unfolding handle_reconnect
  handle_reconnect-blocks zero b r log down same open_ = refl
  handle_reconnect-blocks (suc fuel) b r log down same open_ =
      let (tried, log') = attempt o b r log in
      elim (Option-cases tried.0) [
        | inl up_now ↦ absurd (down b r log same up_now)
        | inr (e, failed) ↦
            let rest =
              handle_reconnect-blocks fuel (next_backoff b) tried.1 log' down
                ((attempt-keeps o b r log).0 ∙ same) ((attempt-keeps o b r log).1 ∙ open_) in
            ground arith
      ]
