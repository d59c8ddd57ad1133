-- ===== src/Examples/Handler.antt =====
-- internal/handler/pdf_handler.go at concrete inputs.
use pdf_generator.Prelude.{◌≡◌, refl, [], ◌+◌, count_if}
use pdf_generator.Go.{ok}
use pdf_generator.Repository.Quiet.{IsQuiet, new_job_repository-IsQuiet}
use pdf_generator.Repository.Postgres.{new_job_repository}
use pdf_generator.Service.Creation.{is_accepted}
use pdf_generator.Handler.Pdf.{create_handler}
use pdf_generator.Handler.Status.{promised, create_handler-promises}
use pdf_generator.Examples.Samples.{outside, service, request}

accepted-IsQuiet : IsQuiet is_accepted (new_job_repository outside)
accepted-IsQuiet = new_job_repository-IsQuiet outside is_accepted (record {
  no_clock = λ t. refl;
  no_exec = λ s r. refl;
  no_row = λ id r. refl;
  no_rows = λ user_id limit offset r. refl;
})

create_handler-promises_example :
    count_if is_accepted (create_handler outside service "ann" (ok (request "broken")) []).1
    ≡ promised (create_handler outside service "ann" (ok (request "broken")) []).0.code + 0
create_handler-promises_example =
    create_handler-promises outside service "ann" (ok (request "broken")) [] accepted-IsQuiet
