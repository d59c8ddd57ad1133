-- ===== src/Http/Stream.antt =====
-- `SSEHandler.Stream`. What the other goroutines do while the handler waits is given as the broker that
-- it finds when it goes on.
use pdf_generator.Prelude.{update, true, ℕ, String, List, [], ◌∷◌, none, some, if◌then◌else◌}
use pdf_generator.Go.{Result, ok, err}
use pdf_generator.Domain.{Bytes}
use pdf_generator.World.{Outside}
use pdf_generator.Handler.Response.{refuse, stream_event}
use pdf_generator.Sse.Broker.{Client, Broker, subscribe, unsubscribe, receive}
use pdf_generator.Http.Context.{Context, set_header, send_json, value, Server, Ended, Handler}

-- What the loop meets: other goroutines have changed the broker, `select` has found an event or the
-- closed channel, and `select` has found that the context is done.
pub data Turn : Type 0 where
  elsewhere : Broker → Turn
  wake : Turn
  leave : Turn

-- `c.SSEvent(name, data)` and `Flush`.
abbrev pub send_event : String → String → Context → Context
send_event name data_ c = record c { sent = true; bodies = stream_event name data_ ∷ c.bodies }

-- An event that cannot be encoded is left out.
abbrev pub send_update : Result Bytes → Context → Context
send_update (err e) c = c
send_update (ok body) c = send_event "job_update" body c

abbrev pub put_client : Broker → ℕ → Client → Broker
put_client b client state = record b { store = update b.store client state }

-- The loop of `c.Stream`, which also ends where the connection is lost, the end of the turns. A
-- `wake` with nothing to receive on an open channel does not happen, and changes nothing here.
unfoldable pub stream_loop : Outside → ℕ → List Turn → Context → Broker → Context × Broker
stream_loop o client [] c b = (c, b)
stream_loop o client (elsewhere found ∷ turns) c b = stream_loop o client turns c found
stream_loop o client (leave ∷ turns) c b = (c, b)
stream_loop o client (wake ∷ turns) c b = elim (receive (b.store client)) [
  | none ↦ if (b.store client).events_closed then (c, b) else stream_loop o client turns c b
  | some (e, state) ↦
      stream_loop o client turns (send_update (o.marshal_event e) c) (put_client b client state)
]

-- The four headers of a stream.
abbrev pub stream_headers : Context → Context
stream_headers c = set_header "X-Accel-Buffering" "no" (
    set_header "Connection" "keep-alive"
      (set_header "Cache-Control" "no-cache" (set_header "Content-Type" "text/event-stream" c)))

-- The deferred `Unsubscribe`.
unfoldable pub end_stream : ℕ → Context × Broker → Server → Ended × Server
end_stream client (c, b) s = elim (unsubscribe b client) [
  | none ↦ ((some (value "close of closed channel"), c), record s { broker = b })
  | some left ↦ ((none, c), record s { broker = left })
]

-- `Stream` after `Subscribe`.
unfoldable pub subscribed : Outside → List Turn → Result ℕ × Broker → Handler
subscribed o turns (err e, b) c s =
    ((none, send_json (refuse 503 "too many connections" []) c), record s { broker = b })
subscribed o turns (ok client, b) c s =
    end_stream client
      (stream_loop o client turns (send_event "connected" "SSE connection established" c) b) s

unfoldable pub stream : Outside → List Turn → Handler
stream o turns c s = elim c.user_id [
  | none ↦ ((none, send_json (refuse 401 "unauthorized" []) c), s)
  | some user_id ↦ subscribed o turns (subscribe s.broker user_id) (stream_headers c) s
]
