-- ===== src/Examples/Http.antt =====
-- internal/router/router.go and internal/middleware at concrete inputs: a request for a job, with the
-- token of its owner and without one, and a stream that receives an event.
use text.Mathlib.Text.{◌==◌ as str_eq}
use pdf_generator.Prelude.{
  String, ◌≡◌, refl, true, false, List, [], ◌∷◌, none, some, if◌then◌else◌, arith,
}
use pdf_generator.Prelude.Int.{pos}
use pdf_generator.Go.{ok, err, other}
use pdf_generator.Domain.{JobStatusResponse, new_api_error, pending}
use pdf_generator.World.Extends.{Extends}
use pdf_generator.Repository.Postgres.{new_job_repository, get_by_id}
use pdf_generator.Token.Manager.{
  Claims, ParsedToken, validate_access_token, validate_token, check_token,
}
use pdf_generator.Handler.Response.{api_error}
use pdf_generator.Handler.Pdf.{get_handler}
use pdf_generator.Handler.Status.{found}
use pdf_generator.Service.PdfService.{get_job_status, status_response}
use pdf_generator.Middleware.RateLimit.{new_rate_limiter, rate_limit, get_limiter, insert_limiter}
use pdf_generator.Sse.Broker.{no_client, new_broker, members, register, new_client, count_up}
use pdf_generator.Http.Context.{Context, Server, Ended}
use pdf_generator.Http.Chain.{request_id, cors, logger, log_request, recover, recovery}
use pdf_generator.Http.Guards.{identified, verdict, act_on, jwt_auth, limited, rate_limited}
use pdf_generator.Http.Routes.{
  Api, Moment, get_job, get_jobs, get_route, handle, guarded, serve, post_jobs,
}
use pdf_generator.Http.Stream.{Turn, elsewhere, wake, leave, stream, put_client}
use pdf_generator.Http.Refusal.{Reason, serve-refuses}
use pdf_generator.Http.Access.{IsIdle, allowed, expected_get, serve-status}
use pdf_generator.Http.Ownership.{serve-own}
use pdf_generator.Http.Pages.{IsPageOf, serve-IsPageOf}
use pdf_generator.Http.Login.{serve-issued}
use pdf_generator.Http.Undisturbed.{AllKeep}
use pdf_generator.Http.Streaming.{joined, stream-restores}
use pdf_generator.Examples.Samples.{outside, service, sample_job, event, request}
use pdf_generator.Examples.Token.{known, library, jwt_config, pair, scheme, issued}

abbrev api : Api
api = record { outside = outside; library = library; jwt = jwt_config; svc = service }

abbrev moment : Moment
moment = record { now = 5; allow = λ _. true }

-- A request with a header.
abbrev arrived : String → Context
arrived authorization = record {
  request = record {
    method = "GET";
    path = "/api/v1/jobs/job-1";
    raw_query = "";
    client_ip = "10.0.0.1";
    header = λ key. if str_eq key "Authorization" then authorization else "";
  };
  request_id = none;
  user_id = none;
  email = none;
  headers = λ _. none;
  status = 200;
  sent = false;
  bodies = [];
}

abbrev server : Server
unfolding new_rate_limiter new_broker
server = record { log = []; limiter = new_rate_limiter; broker = new_broker (pos 9) 4; lines = [] }

-- An API whose secret was changed: no token is accepted.
abbrev rotated : Api
rotated = record api {
  library = record library { parse = λ now token key. err (other "signature is invalid") };
}

abbrev refused : Ended × Server
refused = serve rotated moment (get_job "job-1") (arrived "Bearer access") server

serve-refuses_example :
    (refused.0.1.status ≡ 401)
    × ((message : String) × Reason "Bearer access" message
        × (refused.0.1.bodies ≡ api_error (new_api_error 401 message []) ∷ []))
    × (refused.1.limiter ≡ server.limiter)
    × (refused.1.broker ≡ server.broker)
    × Extends IsIdle [] refused.1.log
unfolding server
serve-refuses_example =
    serve-refuses rotated moment (get_job "job-1") (arrived "Bearer access") server refl refl refl
      (λ token has accepted. no_token accepted.1)
  where
    no_token : {t : ParsedToken} → err (other "signature is invalid") ≡ ok t → ⊥
    no_token e = cc

serve-status_example :
    (serve api moment (get_job "job-1") (arrived "bEARER access") server).0.1.status
    ≡ expected_get
        (allowed moment server.limiter)
        "job-1"
        (found sample_job)
        (verdict library jwt_config 5 "bEARER access")
serve-status_example =
    serve-status api moment "job-1" (found sample_job) (arrived "bEARER access") server refl refl
      refl refl

serve-issued_example :
    (serve api moment (get_job "job-1") (arrived "Bearer access") server).0.1.status
    ≡ (if allowed moment server.limiter "ann" then 200 else 429)
serve-issued_example =
    serve-issued api moment "ann@example.org" "ann" "job-1" (found sample_job) [] pair
      (arrived "Bearer access") server scheme issued (omega arith) refl refl refl refl refl

abbrev posted : Ended × Server
posted = serve api moment (post_jobs (ok (request "broken"))) (arrived "Bearer access") server

abbrev shown : JobStatusResponse
shown = record {
  id = "job-1";
  user_id = "ann";
  status = pending;
  file_path = none;
  error_message = none;
  created_at = 0;
  completed_at = none;
}

serve-own_example :
    (claims : Claims) × (verdict library jwt_config 5 "Bearer access" ≡ identified claims)
    × (shown.user_id ≡ claims.user_id)
unfolding serve request_id cors logger recovery log_request recover handle guarded jwt_auth act_on
    verdict validate_access_token validate_token check_token rate_limited rate_limit get_limiter
    insert_limiter limited get_route get_handler get_job_status status_response new_job_repository
    get_by_id new_rate_limiter server
serve-own_example = serve-own api moment "job-1" shown (arrived "Bearer access") server refl refl

abbrev known_user : Context
known_user = record (arrived "Bearer access") { user_id = some "ann" }

-- The event arrives, and the client leaves.
abbrev turns : List Turn
turns =
    elsewhere (
      put_client (joined server.broker "ann") 0
        (record no_client { user_id = "ann"; events = event ∷ [] }))
    ∷ wake
    ∷ leave
    ∷ []

undisturbed : AllKeep 0 (joined server.broker "ann") turns
unfolding joined register new_client count_up new_broker server
undisturbed =
    (record { clients = refl; active = refl; user = refl; done = refl; closed = refl }, tt)

stream-restores_example :
    ((stream outside turns known_user server).0.0 ≡ none)
    × ((stream outside turns known_user server).1.broker.active ≡ pos 0)
    × (members ((stream outside turns known_user server).1.broker.clients "ann") ≡ [])
unfolding new_broker server
stream-restores_example =
    stream-restores outside turns known_user server "ann" "ann" 0 refl refl refl (omega arith) refl
      undisturbed

-- A limit above all, and an offset that is no number.
serve-IsPageOf_example :
    Extends
      (IsPageOf "ann")
      []
      (serve api moment
        (get_jobs (some "99999999999999999999") (some "x"))
        (arrived "Bearer access")
        server).1.log
unfolding server verdict validate_access_token validate_token check_token
serve-IsPageOf_example =
    serve-IsPageOf api moment (some "99999999999999999999") (some "x") known
      (arrived "Bearer access") server refl refl refl
