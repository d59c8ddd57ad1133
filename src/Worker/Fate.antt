-- ===== src/Worker/Fate.antt =====
-- What becomes of the job of a delivery: it is rejected, done, or in the one queue where it belongs.
use pdf_generator.Prelude.{
  ℕ, suc, String, ◌≡◌, refl, none, some, ◌⊎◌, inl, inr, count_if, ◌^◌, ◌<◌, Option-cases,
}
use pdf_generator.Prelude.Int.{pos}
use pdf_generator.Go.{GoError, ok, err, Result-cases}
use pdf_generator.Domain.{Bytes, JobMessage}
use pdf_generator.World.{Outside, Log}
use pdf_generator.Worker.Processor.{parse_message, process}
use pdf_generator.Worker.Pool.{Pool, Delivery, settle, process_parsed, process_message}
use pdf_generator.Worker.Moves.{
  is_sent, any_message, is_copy, IsHealthy, Destination, OneCopy, process_kept, failure_count,
  next_count, destination, copy_of,
}

-- What the broker has accepted on the exchange of jobs when a delivery has been processed, beside
-- what `ParseMessage` and `Process` say of it.
abbrev pub Became : Outside → Pool → Delivery → Log → Type 0
Became o p d log =
    let before : ℕ = count_if (is_sent p.rmq.cfg any_message) log in
    let after : ℕ = count_if (is_sent p.rmq.cfg any_message) (process_message o p d log).1 in
    ((e : GoError) × (parse_message o d.body ≡ err e) × (after ≡ before))
    ⊎ ((m : JobMessage) × (parse_message o d.body ≡ ok m)
        × (((process o p.processor m log).0 ≡ none) × (after ≡ before)
            ⊎ ((e : GoError) × ((process o p.processor m log).0 ≡ some e)
                × ((key : String) × (body : Bytes) × Destination o p m key body
                    × OneCopy p key body log (process_message o p d log).1))))

parsed_case :
    (o : Outside) (p : Pool) (h : IsHealthy o p) (d : Delivery) (m : JobMessage) (n : ℕ) (log : Log)
    → m.retry_count ≡ pos n
    → suc n < 2 ^ 63
    → parse_message o d.body ≡ ok m
    → Became o p d log
unfolding process_message process_parsed settle
parsed_case o p h d m n log count small parsed =
    elim (Option-cases (process o p.processor m log).0) [
      | inl done ↦
          inr (m, parsed, inl (done, rw (parsed, done) (process_kept o p h any_message m log)))
      | inr (e, failed) ↦
          let (key, body, there) = destination o p h m in
          let next = next_count m n count small in
          inr (
            m,
            parsed,
            inr (
              e,
              failed,
              (
                key,
                body,
                there,
                rw (parsed, failed)
                    (
                      failure_count o p h any_message d m e n key body log next there
                          (λ q k b. refl),
                      failure_count o p h (is_copy key body) d m e n key body log next there
                          (copy_of key body),
                    ),
              ),
            ),
          )
    ]

-- Where the broker accepts every publication, at most three retries are allowed, every message can be
-- encoded, events and jobs have different exchanges, the repositories are those that `main` makes, and
-- the retry count of the message is at least 0 and less than the largest int: while a delivery is
-- processed, the broker accepts no message on the exchange of jobs where its body cannot be read, or
-- where `Process` returned nil, and exactly one where `Process` failed. That one goes, where the next retry
-- is allowed, to the delay queue of that retry, with the message and that count as its body, and
-- otherwise to the dead letter queue, with the message as it came.
pub process_message-moves :
    (o : Outside) (p : Pool) (d : Delivery) (log : Log)
    → IsHealthy o p
    → ((m : JobMessage)
        → parse_message o d.body ≡ ok m
        → (n : ℕ) × (m.retry_count ≡ pos n) × (suc n < 2 ^ 63))
    → Became o p d log
unfolding process_message process_parsed
process_message-moves o p d log h counts = elim (Result-cases (parse_message o d.body)) [
  | inr (e, unread) ↦ inl (e, unread, rw unread refl)
  | inl (m, parsed) ↦
      let (n, count, small) = counts m parsed in parsed_case o p h d m n log count small parsed
]
