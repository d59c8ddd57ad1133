-- ===== src/World/Effect.antt =====
-- A piece of the program that talks to the outside: it reads the log and returns it longer.
use pdf_generator.Prelude.{ℕ, String, Bool, List, ◌∷◌, Option}
use pdf_generator.Prelude.Int.{ℤ}
use pdf_generator.Go.{Result, Failure}
use pdf_generator.Domain.{Job, Time}
use pdf_generator.World.Sql.{Statement}
use pdf_generator.World.Amqp.{Publication, Declaration}
use pdf_generator.World.Drawing.{Draw}
use pdf_generator.World.Answers.{
  Act, clocked, drew_uuid, executed, selected_row, selected_rows, published, acked, nacked,
  inspected, wrote_pdf, dialed, opened_channel, closed_channel, closed_connection, declared,
  set_qos, consumed, slept, Log, Outside,
}

abbrev pub M {ℓ} : Type ℓ → Type ℓ
M A = Log → A × Log

module _ {ℓ κ} {A : Type ℓ} {B : Type κ} where
  infixl 5 ◌>>=◌ ◌>>◌
  abbrev pub ◌>>=◌ : (Log → A × Log) → (A → Log → B × Log) → Log → B × Log
  ◌>>=◌ m f log = let (a, log') = m log in f a log'

  abbrev pub ◌>>◌ : (Log → A × Log) → (Log → B × Log) → Log → B × Log
  ◌>>◌ m n log = n (m log).1

abbrev pub pure {ℓ} : {A : Type ℓ} → A → Log → A × Log
pure a log = (a, log)

-- Asks, and notes the question with its answer.
abbrev pub ask {ℓ} : {A : Type ℓ} → (Log → A) → (A → Act) → Log → A × Log
ask answer act log = let a = answer log in (a, act a ∷ log)

abbrev pub note : Act → M (Unit {0})
note act log = (tt, act ∷ log)

module _ (o : Outside) where
  abbrev pub clock : M Time
  clock = ask o.now clocked

  abbrev pub new_uuid : M String
  new_uuid = ask o.uuid drew_uuid

  abbrev pub exec : Statement → M (Result ℕ)
  exec stmt = ask (λ log. o.exec log stmt) (executed stmt)

  abbrev pub query_row : String → M (Result Job)
  query_row id = ask (λ log. o.query_row log id) (selected_row id)

  abbrev pub query : String → ℤ → ℤ → M (Result (List (Result Job) × Failure))
  query user limit offset =
      ask (λ log. o.query log user limit offset) (selected_rows user limit offset)

  abbrev pub publish_with_context : Publication → M Failure
  publish_with_context p = ask (λ log. o.publish log p) (published p)

  abbrev pub ack : ℕ → Bool → M Failure
  ack tag multiple = ask (λ log. o.ack log tag multiple) (acked tag multiple)

  abbrev pub nack : ℕ → Bool → Bool → M Failure
  nack tag multiple requeue =
      ask (λ log. o.nack log tag multiple requeue) (nacked tag multiple requeue)

  abbrev pub queue_inspect : Option ℕ → String → M (Result ℤ)
  queue_inspect ch name = ask (λ log. o.queue_inspect log ch name) (inspected ch name)

  abbrev pub output_file_and_close : String → List Draw → M Failure
  output_file_and_close path ops = ask (λ log. o.write_pdf log path ops) (wrote_pdf path ops)

  abbrev pub dial : String → M (Result ℕ)
  dial url = ask (λ log. o.dial log url) (dialed url)

  abbrev pub open_channel : ℕ → M (Result ℕ)
  open_channel conn = ask (λ log. o.open_channel log conn) (opened_channel conn)

  abbrev pub declare : Option ℕ → Declaration → M (Result String)
  declare ch d = ask (λ log. o.declare log ch d) (declared ch d)

  abbrev pub qos : Option ℕ → ℤ → M Failure
  qos ch prefetch = ask (λ log. o.qos log ch prefetch) (set_qos ch prefetch)

  abbrev pub consume : Option ℕ → String → Bool → Bool → M Failure
  consume ch name auto_ack exclusive =
      ask (λ log. o.consume log ch name auto_ack exclusive) (consumed ch name auto_ack exclusive)

  abbrev pub close_connection : ℕ → M Failure
  close_connection conn = ask (λ log. o.close_connection log conn) (λ _. closed_connection conn)

abbrev pub close_channel : ℕ → M (Unit {0})
close_channel ch = note (closed_channel ch)

abbrev pub sleep : ℕ → M (Unit {0})
sleep d = note (slept d)
