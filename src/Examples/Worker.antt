-- ===== src/Examples/Worker.antt =====
-- internal/worker at concrete inputs: a delivery whose payload cannot be read, and a message with a
-- good one.
use pdf_generator.Prelude.{◌≡◌, refl, [], count_if, none}
use pdf_generator.Prelude.Int.{pos}
use pdf_generator.Domain.{JobMessage, processing}
use pdf_generator.World.Extends.{Only}
use pdf_generator.Repository.Quiet.{
  IsQuiet, new_job_repository-IsQuiet, Stays, new_job_repository-Stays,
}
use pdf_generator.Repository.Postgres.{new_job_repository}
use pdf_generator.Queue.Publish.{publish_event}
use pdf_generator.Pdf.Generate.{
  generate, generate_parsed, generate_checked, draw_and_write, validate,
}
use pdf_generator.Worker.Completion.{started, Completion, process-completes}
use pdf_generator.Worker.Processor.{
  parse_message, process, process_started, report_generated, report_completed, announce,
  announce_body,
}
use pdf_generator.Worker.Pool.{process_message}
use pdf_generator.Worker.Settlement.{settles, is_settlement, process_message-settles}
use pdf_generator.Worker.Publications.{IsExpected, process_message-publishes}
use pdf_generator.Examples.Samples.{outside, pool, delivery, sample_message}

settles-IsQuiet : IsQuiet (settles 7) (new_job_repository outside)
settles-IsQuiet = new_job_repository-IsQuiet outside (settles 7) (record {
  no_clock = λ t. refl;
  no_exec = λ s r. refl;
  no_row = λ id r. refl;
  no_rows = λ user_id limit offset r. refl;
})

is_settlement-IsQuiet : IsQuiet is_settlement (new_job_repository outside)
is_settlement-IsQuiet = new_job_repository-IsQuiet outside is_settlement (record {
  no_clock = λ t. refl;
  no_exec = λ s r. refl;
  no_row = λ id r. refl;
  no_rows = λ user_id limit offset r. refl;
})

sample-Stays : Stays (IsExpected outside pool (sample_message (pos 0))) (new_job_repository outside)
sample-Stays = new_job_repository-Stays outside _ (λ t. tt) (λ s r. tt)

process_message-settles_example :
    count_if (settles 7) (process_message outside pool delivery []).1 ≡ 1
process_message-settles_example =
    process_message-settles outside pool delivery [] settles-IsQuiet settles-IsQuiet

process_message-publishes_example :
    Only (IsExpected outside pool (sample_message (pos 0))) (process_message outside pool delivery)
unfolding parse_message
process_message-publishes_example =
    process_message-publishes outside pool (sample_message (pos 0)) sample-Stays sample-Stays
      delivery refl

abbrev good_message : JobMessage
good_message = record (sample_message (pos 0)) { payload = "good" }

process-completes_example :
    (((new_job_repository outside).update_status "job-1" processing none none []).0 ≡ none)
    × Completion outside pool.processor good_message
        (started outside pool.processor good_message [])
        (process outside pool.processor good_message []).1
unfolding process process_started report_generated report_completed new_job_repository announce
    announce_body publish_event generate generate_parsed generate_checked draw_and_write validate
process-completes_example = process-completes outside pool.processor good_message [] refl
