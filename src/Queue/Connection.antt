-- ===== src/Queue/Connection.antt =====
-- The `RabbitMQ` struct, `connect` and `Close`. Channels of close notices are the events of Reconnect.
use pdf_generator.Prelude.{ℕ, String, Bool, true, Option, none, some, if◌then◌else◌}
use pdf_generator.Prelude.Int.{ℤ}
use pdf_generator.Go.{Result, ok, err, Failure, wrap}
use pdf_generator.World.{
  Outside, M, ◌>>=◌, ◌>>◌, pure, dial, open_channel, close_channel, close_connection,
}

-- internal/config/config.go: `RabbitMQConfig`.
pub record RabbitMqConfig : Type 0 where
  pub url : String
  pub job_exchange : String
  pub job_queue : String
  pub job_dlq : String
  pub event_exchange : String
  pub prefetch : ℤ

-- `closed` is whether the channel `done` is closed.
pub record RabbitMq : Type 0 where
  pub conn : Option ℕ
  pub ch : Option ℕ
  pub cfg : RabbitMqConfig
  pub closed : Bool

-- The end of `connect`, after `conn.Channel()`.
unfoldable pub connect_opened : Outside → RabbitMq → ℕ → Result ℕ → M (Failure × RabbitMq)
connect_opened o r conn (err e) = do
  close_connection o conn
  pure (some (wrap "open channel: " e), r)
connect_opened o r conn (ok ch) = pure (none, record r { conn = some conn; ch = some ch })

-- The part of `connect` after `amqp.Dial`.
unfoldable pub connect_dialed : Outside → RabbitMq → Result ℕ → M (Failure × RabbitMq)
connect_dialed o r (err e) = pure (some (wrap "dial rabbitmq: " e), r)
connect_dialed o r (ok conn) = do opened ← open_channel o conn; connect_opened o r conn opened

unfoldable pub connect : Outside → RabbitMq → M (Failure × RabbitMq)
connect o r = do dialed ← dial o r.cfg.url; connect_dialed o r dialed

-- `if r.ch != nil { _ = r.ch.Close() }`.
abbrev pub close_old_channel : Option ℕ → M (Unit {0})
close_old_channel none = pure tt
close_old_channel (some ch) = close_channel ch

abbrev pub close_old_connection : Outside → Option ℕ → M Failure
close_old_connection o none = pure none
close_old_connection o (some conn) = close_connection o conn

-- `Close`: a second call closes the closed channel `done`, which panics: `none`.
unfoldable pub close : Outside → RabbitMq → M (Option (Failure × RabbitMq))
close o r = if r.closed then pure none else do
  close_old_channel r.ch
  failure ← close_old_connection o r.conn
  pure (some (failure, record r { closed = true }))
