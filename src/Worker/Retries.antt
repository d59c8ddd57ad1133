-- ===== src/Worker/Retries.antt =====
-- The life of a message over its retries: what a failure leads to, and how often it is processed.
use mathlib.Core.List.{Memᴰ}
use pdf_generator.Prelude.{
  ℕ, zero, suc, ◌≤◌, ◌≡◌, ◌≢◌, sym, ap, ◌∙◌, Bool, true, false, arith, inl, inr, ◌||◌, count_if,
  ◌==◌, refl,
}
use pdf_generator.Prelude.Int.{ℤ, pos, pos_part, int_add, ◌≤ℤ◌, leb_ℤ, ltb_ℤ}
use pdf_generator.Go.{GoError, Result, ok, err, Failure}
use pdf_generator.Domain.{JobMessage, Bytes}
use pdf_generator.World.Amqp.{Publication}
use pdf_generator.World.{Outside, Act, acked, published, Log, ack}
use pdf_generator.World.Counting.{Silent, Silent-pure, Silent-then}
use pdf_generator.World.Extends.{Extends-mem}
use pdf_generator.Repository.Quiet.{IsQuiet, Stays}
use pdf_generator.Queue.Publish.{publish_to_retry}
use pdf_generator.Worker.Processor.{parse_message}
use pdf_generator.Worker.Pool.{
  Pool, Delivery, report_sent, send_retry_body, send_to_retry, next_retry, handle_failure,
  process_message,
}
use pdf_generator.Worker.Publications.{IsExpected, process_message-publishes}

next_retry-pos : (n : ℕ) → n ≤ 3 → int_add (pos n) (pos 1) ≡ pos (suc n)
unfolding int_add
next_retry-pos n h = ground arith

abbrev count_of : Result JobMessage → ℤ
count_of (ok m) = m.retry_count
count_of (err e) = pos 0

same_count : {m m' : JobMessage} → ok m ≡ ok m' → m.retry_count ≡ m'.retry_count
same_count e = ap count_of e

module _ (o : Outside) (p : Pool) where
  -- A message that comes out of a delay queue into which processing another one has put it.
  pub record IsRetriedAs (msg msg' : JobMessage) : Type 0 where
    pub delivery : Delivery
    pub parsed : parse_message o delivery.body ≡ ok msg
    pub log : Log
    pub publication : Publication
    pub answer : Failure
    pub sent : Memᴰ (published publication answer) (process_message o p delivery log).1
    pub is_new : ¬ Memᴰ (published publication answer) log
    pub to_jobs : publication.exchange ≡ p.rmq.cfg.job_exchange
    pub not_dead : publication.key ≢ p.rmq.cfg.job_dlq
    pub decoded : o.unmarshal_message publication.body ≡ ok msg'

  pub data Retried (msg : JobMessage) : ℕ → JobMessage → Type 0 where
    first : Retried msg zero msg
    again :
        {n : ℕ} {msg' msg'' : JobMessage}
        → Retried msg n msg'
        → IsRetriedAs msg' msg''
        → Retried msg (suc n) msg''

  -- The names and the codec, as the configuration and `encoding/json` have them.
  pub record IsSound : Type 0 where
    pub exchanges : p.processor.rmq.cfg.event_exchange ≢ p.rmq.cfg.job_exchange
    pub codec :
        (m : JobMessage) (b : Bytes) → o.marshal_message m ≡ ok b → o.unmarshal_message b ≡ ok m

  module _ (sound : IsSound) (repo : (msg : JobMessage) → Stays (IsExpected o p msg) p.repo)
      (processor_repo : (msg : JobMessage) → Stays (IsExpected o p msg) p.processor.repo) where
    retry_step :
        (msg msg' : JobMessage)
        → IsRetriedAs msg msg'
        → (msg'.retry_count ≡ next_retry msg)
          × (next_retry msg ≤ℤ pos 3)
          × (next_retry msg ≤ℤ p.max_retries)
    retry_step msg msg' r =
        elim (Extends-mem
          ((process_message-publishes o p msg (repo msg) (processor_repo msg) r.delivery
              r.parsed).at
            r.log)
          r.sent) [
            | inl old ↦ absurd (r.is_new old)
            | inr (inl event) ↦ absurd (sound.exchanges (sym event ∙ r.to_jobs))
            | inr (inr (inl retry)) ↦
                (same_count (sym r.decoded ∙ sound.codec _ _ retry.body), retry.high, retry.allowed)
            | inr (inr (inr dead)) ↦ absurd (r.not_dead dead.key)
          ]

    count_step :
        (n : ℕ) (msg msg' : JobMessage)
        → msg.retry_count ≡ pos n
        → n ≤ 3
        → (msg'.retry_count ≡ next_retry msg)
          × (next_retry msg ≤ℤ pos 3)
          × (next_retry msg ≤ℤ p.max_retries)
        → (msg'.retry_count ≡ pos (suc n)) × (suc n ≤ 3) × (suc n ≤ pos_part p.max_retries)
    count_step n msg msg' e few (same, three, allowed) =
        let next : next_retry msg ≡ pos (suc n) =
          ap (λ c. int_add c (pos 1)) e ∙ next_retry-pos n few in
        (same ∙ next, omega (arith, rw next at three), omega (arith, rw next at allowed))

    -- A message that starts with retry count 0 and has gone n times through a delay queue carries
    -- the retry count n, and n is at most 3 and at most the retries allowed. The event exchange is
    -- not the job exchange, the decoder undoes the encoder, and the repositories publish nothing
    -- else.
    pub retries_bounded :
        {msg msg' : JobMessage} {n : ℕ}
        → msg.retry_count ≡ pos 0
        → Retried msg n msg'
        → (msg'.retry_count ≡ pos n) × (n ≤ 3) × (n ≤ pos_part p.max_retries)
    retries_bounded e first = (e, omega arith, omega arith)
    retries_bounded e (again {n} {msg'} {msg''} r step) =
        let (count, few, _) = retries_bounded e r in
        count_step n msg' msg'' count few (retry_step msg' msg'' step)

abbrev pub is_publication : Act → Bool
is_publication (published _ _) = true
is_publication _ = false

-- `Ack` of one delivery.
abbrev pub acknowledges : ℕ → Act → Bool
acknowledges tag (acked t _ _) = t == tag
acknowledges tag _ = false

same_tag : (n : ℕ) → (n == n) ≡ true
same_tag n = ground arith

leb_ℤ_of_le : (a b : ℤ) → a ≤ℤ b → leb_ℤ a b ≡ true
leb_ℤ_of_le a b h = ground arith

pub outside_false :
    (k : ℕ) → 1 ≤ k → k ≤ 3 → (ltb_ℤ (pos k) (pos 1) || ltb_ℤ (pos 3) (pos k)) ≡ false
outside_false k low high = ground arith

outside_true : (k : ℕ) → 4 ≤ k → (ltb_ℤ (pos k) (pos 1) || ltb_ℤ (pos 3) (pos k)) ≡ true
outside_true k high = ground arith

module _ (o : Outside) (p : Pool) (d : Delivery) (msg : JobMessage) (e : GoError) (log : Log) where
  -- The log when a failed delivery has been acknowledged and its retry counted.
  abbrev pub counted : Log
  counted = (p.repo.increment_retry msg.job_id (ack o d.tag false log).1).1

  not_sent :
      (kind : Act → Bool) (k : ℕ)
      → 4 ≤ k
      → IsQuiet kind p.repo
      → (r : Result Bytes) → Silent kind (send_retry_body o p (pos k) msg r)
  unfolding send_retry_body publish_to_retry report_sent
  not_sent kind k high quiet (err e') = Silent-then (quiet.update_status _ _ _ _) (Silent-pure _)
  not_sent kind k high quiet (ok body) =
      rw (outside_true k high) (Silent-then (quiet.update_status _ _ _ _) (Silent-pure _))

  -- What such a failure adds of a kind of acts is what `Ack` adds.
  only_acked :
      (kind : Act → Bool) (k : ℕ)
      → next_retry msg ≡ pos k
      → 4 ≤ k
      → pos k ≤ℤ p.max_retries
      → IsQuiet kind p.repo
      → count_if kind (handle_failure o p d msg e log).1 ≡ count_if kind (ack o d.tag false log).1
  unfolding handle_failure send_to_retry
  only_acked kind k next high allowed quiet = rw next (
      rw (leb_ℤ_of_le (pos k) p.max_retries allowed) (
        (not_sent kind k high quiet (o.marshal_message (record msg { retry_count = pos k }))).at
          counted
        ∙ (quiet.increment_retry msg.job_id).at (ack o d.tag false log).1))

  -- With four or more retries allowed, the failure of a message whose next retry k is at least 4
  -- and allowed acknowledges the delivery once and publishes nothing, neither to a delay queue nor to
  -- the dead letter queue. The repository publishes and acknowledges nothing itself.
  pub handle_failure-loses :
      (k : ℕ)
      → next_retry msg ≡ pos k
      → 4 ≤ k
      → pos k ≤ℤ p.max_retries
      → IsQuiet is_publication p.repo
      → IsQuiet (acknowledges d.tag) p.repo
      → (count_if (acknowledges d.tag) (handle_failure o p d msg e log).1
          ≡ suc (count_if (acknowledges d.tag) log))
        × (count_if is_publication (handle_failure o p d msg e log).1 ≡ count_if is_publication log)
  handle_failure-loses k next high allowed quiet quiet' = (
    only_acked (acknowledges d.tag) k next high allowed quiet' ∙ rw (same_tag d.tag) refl,
    only_acked is_publication k next high allowed quiet,
  )
