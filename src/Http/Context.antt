-- ===== src/Http/Context.antt =====
-- What the program uses of `gin.Context`, and the state that requests share. gin is not in this
-- repository: `c.Next()` is the argument `next` of a middleware, which is called at most once and
-- last but for what follows it in the source.
use text.Mathlib.Text.{◌==◌ as str_eq}
use pdf_generator.Prelude.{
  ℕ, String, Bool, List, ◌∷◌, Option, none, some, true, if◌then◌else◌, update_key,
}
use pdf_generator.Domain.{Time}
use pdf_generator.World.{Log}
use pdf_generator.Middleware.RateLimit.{RateLimiter}
use pdf_generator.Sse.Broker.{Broker}
use pdf_generator.Handler.Response.{Response, Body}

-- `header` is `GetHeader`: "" for a header that is not there.
pub record Request : Type 0 where
  pub method : String
  pub path : String
  pub raw_query : String
  pub client_ip : String
  pub header : String → String

-- `headers`, `status` and `bodies` are the response; once `sent`, its status stays. The bodies that
-- were written stand newest first.
pub record Context : Type 0 where
  pub request : Request
  pub request_id : Option String
  pub user_id : Option String
  pub email : Option String
  pub headers : String → Option String
  pub status : ℕ
  pub sent : Bool
  pub bodies : List Body

-- `c.Header(key, value)`: an empty value takes the header away.
abbrev pub set_header : String → String → Context → Context
set_header key value c = record c {
  headers = update_key c.headers key (if str_eq value "" then none else some value);
}

-- `c.AbortWithStatus`, where `next` is not called.
abbrev pub send_status : ℕ → Context → Context
send_status code c = record c { status = if c.sent then c.status else code; sent = true }

-- `c.JSON`, and `c.AbortWithStatusJSON`, where `next` is not called.
abbrev pub send_json : Response → Context → Context
send_json r c = record (send_status r.code c) { bodies = r.body ∷ c.bodies }

-- What a goroutine can panic with: a `*net.OpError`, with the text of its `*os.SyscallError` if it
-- holds one, and any other value.
pub data Panic : Type 0 where
  op_error : Option String → Panic
  value : String → Panic

pub data Level : Type 0 where
  info warn error_level : Level

-- A line of the request log. The size of the body is left out, and the duration is that from
-- `started` to `ended`.
pub record Line : Type 0 where
  pub level : Level
  pub method : String
  pub path : String
  pub query : String
  pub status : ℕ
  pub started : Time
  pub ended : Time
  pub client_ip : String
  pub request_id : Option String
  pub user_id : Option String

pub data Logged : Type 0 where
  request_line : Line → Logged
  -- the value, and the path
  panic_line : Panic → String → Logged

pub record Server : Type 0 where
  pub log : Log
  pub limiter : RateLimiter
  pub broker : Broker
  pub lines : List Logged

-- The end of a handler: with a panic, or without.
abbrev pub Ended : Type 0
Ended = Option Panic × Context

abbrev pub Handler : Type 0
Handler = Context → Server → Ended × Server
