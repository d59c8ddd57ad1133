-- ===== src/Http/Lines.antt =====
-- What a line of the request log should say.
use pdf_generator.Prelude.{ℕ, String, arith, ◌≤◌, ◌<◌, ◌≡◌, Option, some}
use pdf_generator.Http.Context.{Context, Line, Level, info, warn, error_level}
use pdf_generator.Http.Chain.{level_of}

-- The levels of the log: errors of the server, errors of the client, and all else.
pub record IsLevel (level : Level) (status : ℕ) : Type 0 where
  pub bad : 500 ≤ status → level ≡ error_level
  pub refused : 400 ≤ status → status < 500 → level ≡ warn
  pub good : status < 400 → level ≡ info

pub level_of-IsLevel : (status : ℕ) → IsLevel (level_of status) status
level_of-IsLevel status = record {
  bad = λ high. ground arith;
  refused = λ low high. ground arith;
  good = λ low. ground arith;
}

-- What the line of a request should say, with the user.
pub record IsLineOf (line : Line) (user : Option String) (id : String) (c : Context)
    (ended : Context) : Type 0 where
  pub level : IsLevel line.level ended.status
  pub method : line.method ≡ c.request.method
  pub path : line.path ≡ c.request.path
  pub query : line.query ≡ c.request.raw_query
  pub client_ip : line.client_ip ≡ c.request.client_ip
  pub status : line.status ≡ ended.status
  pub request_id : line.request_id ≡ some id
  pub user_id : line.user_id ≡ user
