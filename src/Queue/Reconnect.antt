-- ===== src/Queue/Reconnect.antt =====
-- `NewRabbitMQ`, `nextBackoff` and `handleReconnect`. A duration is a number of nanoseconds.
use pdf_generator.Prelude.{ℕ, zero, suc, ◌*◌, true, false, Option, none, some, ltb, if◌then◌else◌}
use pdf_generator.Go.{Result, ok, err, Failure}
use pdf_generator.World.{Outside, Log, M, ◌>>=◌, ◌>>◌, pure, sleep}
use pdf_generator.Queue.Connection.{
  RabbitMqConfig, RabbitMq, connect, close_old_channel, close_old_connection,
}
use pdf_generator.Queue.Topology.{setup}

abbrev pub second : ℕ
second = 1000000000

unfoldable pub next_backoff : ℕ → ℕ
next_backoff current =
    let next = current * 2 in if ltb (30 * second) next then 30 * second else next

-- `setup` where `connect` succeeded.
unfoldable pub set_up : Outside → Failure × RabbitMq → M (Failure × RabbitMq)
set_up o (some e, r) = pure (some e, r)
set_up o (none, r) = do failure ← setup o r; pure (failure, r)

-- `connect` and `setup`, up to the first error.
unfoldable pub connect_and_setup : Outside → RabbitMq → M (Failure × RabbitMq)
connect_and_setup o r = do connected ← connect o r; set_up o connected

abbrev pub made : Failure × RabbitMq → Result RabbitMq
made (none, r) = ok r
made (some e, r) = err e

unfoldable pub new_rabbit_mq : Outside → RabbitMqConfig → M (Result RabbitMq)
new_rabbit_mq o cfg = do
  r ← connect_and_setup o (record { conn = none; ch = none; cfg = cfg; closed = false })
  pure (made r)

-- One round of `handleReconnect` after the test of `done`.
unfoldable pub attempt : Outside → ℕ → RabbitMq → M (Failure × RabbitMq)
attempt o backoff r = do
  sleep backoff
  close_old_channel r.ch
  close_old_connection o r.conn
  connect_and_setup o r

-- The loop of `handleReconnect`; `none` means that the fuel ran out. Since the lock is held, `done`
-- cannot be closed meanwhile.
unfoldable pub handle_reconnect : Outside → ℕ → ℕ → RabbitMq → Log → Option RabbitMq × Log
handle_reconnect o zero backoff r log = (none, log)
handle_reconnect o (suc fuel) backoff r log = elim r.closed [
  | true ↦ (some r, log)
  | false ↦
      let (tried, log') = attempt o backoff r log in
      elim tried.0 [
        | none ↦ (some tried.1, log')
        | some _ ↦ handle_reconnect o fuel (next_backoff backoff) tried.1 log'
      ]
]
