-- ===== src/Examples/Api.antt =====
-- cmd/api/main.go in the environment of the example of the configuration, where all answers are good.
use pdf_generator.Prelude.{ℕ, ◌≡◌, refl, true, false, [], none, some}
use pdf_generator.Go.{ok}
use pdf_generator.Queue.Connection.{connect, connect_dialed, connect_opened}
use pdf_generator.Queue.Topology.{setup}
use pdf_generator.Queue.Consume.{consume_events}
use pdf_generator.Queue.Reconnect.{set_up, connect_and_setup, new_rabbit_mq}
use pdf_generator.Sse.Listen.{start_broker}
use pdf_generator.Config.Settings.{Config}
use pdf_generator.Config.Load.{load, settings, get_env, get_int_env}
use pdf_generator.Command.Startup.{new_postgres_pool}
use pdf_generator.Command.Api.{
  Server, new_server, broker_started, api_queue_connected, api_database_connected,
  api_config_loaded, api_main,
}
use pdf_generator.Command.Serving.{IsAnswering, IsServing, api_main-IsServing}
use pdf_generator.Command.Closing.{
  Process, cancelled, queue_closed, pool_closed, accept, answer, signal, shut_down, cancel,
  reconnect, close_queue, end_close, close_pool, ProcessReach, here, next, listening_from,
}
use pdf_generator.Command.Idle.{shutdown-idle}
use pdf_generator.Queue.Link.{
  locking, waiting, closing, returned, close_both, Later, notice, call, lock_close, return,
}
use pdf_generator.Examples.Samples.{outside, rabbit}
use pdf_generator.Examples.Config.{environment, floats}
use pdf_generator.Examples.Command.{platform}

abbrev ready_server : Server ℕ
unfolding settings
ready_server = new_server outside (settings floats environment) (record {
  conn = some 1;
  ch = some 2;
  cfg = (settings floats environment).rabbit_mq;
  closed = false;
})

api_main-IsServing_example :
    (cfg : Config ℕ) × (load floats environment ≡ ok cfg)
    × IsAnswering platform cfg.db
    × IsServing outside cfg ready_server "" (api_main platform outside []).1
unfolding api_main api_config_loaded load settings get_env get_int_env new_postgres_pool
    api_database_connected new_rabbit_mq connect_and_setup connect connect_dialed connect_opened
    set_up setup api_queue_connected broker_started start_broker consume_events
api_main-IsServing_example = api_main-IsServing platform outside ready_server "" [] refl

-- One request comes and is answered while `Shutdown` waits.
abbrev shut_run : (s : Process) × ProcessReach outside (listening_from rabbit []) s
shut_run = (
  _,
  next (next (next (next here (accept _ refl refl)) (signal _ refl)) (answer _ 0 [] refl refl))
      (shut_down _ refl refl),
)

-- The connection is lost then, and `rmq.Close()` gets the lock before the reconnection.
abbrev lost : Process
lost = record shut_run.0 {
  stage = cancelled none;
  link = record shut_run.0.link { loop = locking };
}

abbrev called : Process
called = record lost { link = record lost.link { closer = waiting } }

abbrev marked : Process
marked = record called {
  link = record called.link { rmq = record rabbit { closed = true }; closer = closing };
}

abbrev closed : Process
closed = record marked {
  link = record marked.link {
    log = close_both outside marked.link.rmq marked.link.log;
    closer = returned;
  };
}

closed_run : ProcessReach outside shut_run.0 (record closed { stage = queue_closed none })
closed_run =
    next
      (next
        (next
          (next
            (next (next here (cancel _ none refl))
              (reconnect _ lost.link refl (notice _ refl) refl))
            (close_queue lost none called.link refl (call lost.link refl) refl))
          (close_queue called none marked.link refl (lock_close called.link refl (λ b h. cc)) refl))
        (close_queue marked none closed.link refl (return marked.link refl) refl))
      (end_close closed none refl refl)

abbrev over : Process
over = record closed { stage = pool_closed none }

shutdown-idle_example :
    Later outside shut_run.0.link closed.link
    × (over.link.log ≡ closed.link.log)
    × (over.link.rmq ≡ closed.link.rmq)
    × (over.in_flight ≡ 0)
    × (over.listening ≡ false)
shutdown-idle_example =
    shutdown-idle outside rabbit [] none refl shut_run.1 refl closed_run refl
      (next here (close_pool _ none refl))
