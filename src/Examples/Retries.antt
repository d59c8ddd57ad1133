-- ===== src/Examples/Retries.antt =====
-- internal/worker/worker.go at concrete inputs: what becomes of a message that failed.
use mathlib.Core.List.{Memᴰ}
use mathlib.Core.List.Memᴰ
use text.Mathlib.Text.{◌==◌ as str_eq}
use text.Mathlib.TextEquality.{eq_iff}
use pdf_generator.Prelude.{String, ◌≡◌, ◌≢◌, refl, false, [], none, some, count_if, arith, ◌≤◌}
use pdf_generator.Prelude.Int.{pos, int_add}
use pdf_generator.Go.{GoError, other}
use pdf_generator.Domain.{JobMessage}
use pdf_generator.World.{Log}
use pdf_generator.Repository.Quiet.{
  IsQuiet, new_job_repository-IsQuiet, Stays, new_job_repository-Stays,
}
use pdf_generator.Repository.Postgres.{new_job_repository}
use pdf_generator.Worker.Pool.{
  handle_failure, process_message, process_parsed, settle, send_to_retry, send_retry_body,
  report_sent,
}
use pdf_generator.Queue.Topology.{retry_queue_name}
use pdf_generator.Queue.Publish.{publish_event, publish_to_retry}
use pdf_generator.Pdf.Generate.{generate, generate_parsed}
use pdf_generator.Worker.Processor.{
  parse_message, process, process_started, announce, announce_body, report_generated,
}
use pdf_generator.Worker.Publications.{IsExpected}
use pdf_generator.Worker.Retries.{
  IsRetriedAs, first, again, IsSound, retries_bounded, handle_failure-loses, is_publication,
  acknowledges,
}
use pdf_generator.Examples.Samples.{
  config, outside, pool, pool_of, delivery, sample_message, decode-encode,
}

ne_by_test : (s t : String) → str_eq s t ≡ false → s ≢ t
ne_by_test s t h = ground (arith, eq_iff s t)

sound : IsSound outside pool
sound = record { exchanges = ne_by_test _ _ refl; codec = decode-encode }

stays : (msg : JobMessage) → Stays (IsExpected outside pool msg) (new_job_repository outside)
stays msg = new_job_repository-Stays outside _ (λ t. tt) (λ s r. tt)

publication-IsQuiet : IsQuiet is_publication (new_job_repository outside)
publication-IsQuiet = new_job_repository-IsQuiet outside is_publication (record {
  no_clock = λ t. refl;
  no_exec = λ s r. refl;
  no_row = λ id r. refl;
  no_rows = λ user_id limit offset r. refl;
})

abbrev failure : GoError
failure = other "disk full"

retried_once : IsRetriedAs outside pool (sample_message (pos 0)) (sample_message (pos 1))
unfolding process_message parse_message process_parsed process process_started new_job_repository
    announce announce_body publish_event generate generate_parsed report_generated settle
    handle_failure send_to_retry send_retry_body publish_to_retry report_sent int_add
    retry_queue_name
retried_once = record {
  delivery = delivery;
  parsed = refl;
  log = [];
  publication = record {
    channel = some 2;
    exchange = "pdf_jobs_exchange";
    key = retry_queue_name config (pos 1);
    body = "1";
    timestamp = 13;
  };
  answer = none;
  sent = Memᴰ.head refl;
  is_new = Memᴰ.not-nil;
  to_jobs = refl;
  not_dead = ne_by_test _ _ refl;
  decoded = refl;
}

retries_bounded_example : ((sample_message (pos 1)).retry_count ≡ pos 1) × (1 ≤ 3) × (1 ≤ 3)
retries_bounded_example =
    retries_bounded outside pool sound stays stays refl (again first retried_once)

abbrev lost_log : Log
lost_log = (handle_failure outside (pool_of 5) delivery (sample_message (pos 3)) failure []).1

acknowledges-IsQuiet : IsQuiet (acknowledges 7) (new_job_repository outside)
acknowledges-IsQuiet = new_job_repository-IsQuiet outside (acknowledges 7) (record {
  no_clock = λ t. refl;
  no_exec = λ s r. refl;
  no_row = λ id r. refl;
  no_rows = λ user_id limit offset r. refl;
})

handle_failure-loses_example :
    (count_if (acknowledges 7) lost_log ≡ 1) × (count_if is_publication lost_log ≡ 0)
unfolding new_job_repository int_add
handle_failure-loses_example =
    handle_failure-loses outside (pool_of 5) delivery (sample_message (pos 3)) failure [] 4 refl
      (omega arith) (omega arith) publication-IsQuiet acknowledges-IsQuiet
