-- ===== src/World/Amqp.antt =====
-- The arguments of the amqp091 calls in internal/pkg/queue/rabbitMq.go. A connection or a channel is
-- a number that the library hands out.
use pdf_generator.Prelude.{ℕ, String, Bool, List, Option}
use pdf_generator.Prelude.Int.{ℤ}
use pdf_generator.Domain.{Bytes, Time}

-- A value of an `amqp.Table`.
pub data TableValue : Type 0 where
  text : String → TableValue
  int64 : ℤ → TableValue

-- `amqp.Publishing` with the address it is sent to; every publication of the program is persistent
-- JSON, neither mandatory nor immediate.
pub record Publication : Type 0 where
  pub channel : Option ℕ
  pub exchange : String
  pub key : String
  pub body : Bytes
  pub timestamp : Time

-- `ExchangeDeclare`, `QueueDeclare` and `QueueBind`.
pub data Declaration : Type 0 where
  exchange_declare : String → String → Declaration
  -- name, durable, auto-delete, exclusive, arguments
  queue_declare : String → Bool → Bool → Bool → List (String × TableValue) → Declaration
  -- queue, routing key, exchange
  queue_bind : String → String → String → Declaration
