-- ===== src/Examples/Service.antt =====
-- internal/service at concrete inputs.
use pdf_generator.Prelude.{◌≡◌, refl, [], ◌+◌, count_if}
use pdf_generator.Repository.Quiet.{IsQuiet, new_job_repository-IsQuiet}
use pdf_generator.Repository.Postgres.{new_job_repository}
use pdf_generator.Service.PdfService.{create_job}
use pdf_generator.Service.Creation.{is_accepted, queued, create_job-queues}
use pdf_generator.Examples.Samples.{outside, service, request}

accepted-IsQuiet : IsQuiet is_accepted (new_job_repository outside)
accepted-IsQuiet = new_job_repository-IsQuiet outside is_accepted (record {
  no_clock = λ t. refl;
  no_exec = λ s r. refl;
  no_row = λ id r. refl;
  no_rows = λ user_id limit offset r. refl;
})

create_job-queues_example :
    count_if is_accepted (create_job outside service "ann" (request "broken") []).1
    ≡ queued (create_job outside service "ann" (request "broken") []).0 + 0
create_job-queues_example =
    create_job-queues outside service accepted-IsQuiet "ann" (request "broken") []
