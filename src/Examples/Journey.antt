-- ===== src/Examples/Journey.antt =====
-- A request that comes to its end, over the database of the example of the jobs table.
use pdf_generator.Prelude.{String, ◌≡◌, refl, [], Option, some, none}
use pdf_generator.Prelude.Int.{pos}
use pdf_generator.Go.{ok}
use pdf_generator.Domain.{Job, JobStatusResponse, completed}
use pdf_generator.World.{Log}
use pdf_generator.World.Sql.{insert_job}
use pdf_generator.World.Extends.{same}
use pdf_generator.Repository.Postgres.{new_job_repository}
use pdf_generator.Queue.Publish.{queue_size}
use pdf_generator.Pdf.Generate.{Generator, file_path_of, validate}
use pdf_generator.Worker.Processor.{PdfProcessor, new_pdf_processor, process}
use pdf_generator.Service.Validator.{validate_create_job_request}
use pdf_generator.Service.PdfService.{
  PdfService, new_message, job_response, create_job, get_job_status,
}
use pdf_generator.Database.Success.{IsLive}
use pdf_generator.Database.Journey.{IsOpen, new_service, request-completes}
use pdf_generator.Examples.Samples.{rabbit, request, pdf_data}
use pdf_generator.Examples.Database.{database, table_of, answer_of, database-IsDatabase}

database-IsLive : IsLive database table_of
database-IsLive = record {
  updates = λ log id job status path msg now ended there. refl;
  found = λ log id job there. rw there refl;
  writes = λ log path ops. refl;
}

vacant : (row : Option Job) (job : Job) → row ≡ none → answer_of (insert_job job) (λ _. row) ≡ ok 1
vacant none job h = refl
vacant (some row) job h = cc

database-IsOpen : IsOpen database table_of
database-IsOpen = record {
  inserts = λ log job fresh. vacant (table_of log job.id) job fresh;
  encodes = λ m. ("2", refl);
  accepts = λ log q. refl;
}

abbrev generator : Generator
generator = record { output_dir = "out" }

abbrev service : PdfService
service = new_service database rabbit (pos 3)

abbrev worker : PdfProcessor
worker = new_pdf_processor (new_job_repository database) rabbit generator

abbrev created_log : Log
created_log = (create_job database service "ann" (request "good") []).1

request-completes_example :
    (id : String) × ((create_job database service "ann" (request "good") []).0
      ≡ ok (job_response id))
    × (let run =
          process database worker (new_message service id "ann" (request "good")) created_log in
        (run.0 ≡ none)
        × ((r : JobStatusResponse) × ((get_job_status service "ann" id run.1).0 ≡ ok r)
            × (r.status ≡ completed)
            × (r.file_path ≡ some (file_path_of database generator id))
            × (r.error_message ≡ none)))
unfolding validate queue_size validate_create_job_request
request-completes_example =
    request-completes database-IsDatabase database-IsOpen database-IsLive rabbit (pos 3) generator
      "ann" (request "good") (pos 0) pdf_data [] created_log refl refl refl refl refl refl same
