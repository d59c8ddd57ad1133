-- ===== src/Examples/Queue.antt =====
-- internal/pkg/queue/rabbitMq.go at concrete inputs.
use text.Mathlib.Text.{◌==◌ as str_eq}
use text.Mathlib.TextEquality.{eq_iff}
use pdf_generator.Prelude.{ℕ, String, ◌≡◌, ◌≢◌, refl, false, [], none, some, arith}
use pdf_generator.Go.{err, other}
use pdf_generator.World.{Outside, Log}
use pdf_generator.Queue.Connection.{RabbitMq, connect, connect_dialed, connect_opened}
use pdf_generator.Queue.Topology.{retry_queue_name, setup}
use pdf_generator.Queue.Plan.{plan, declare_all, accepted_all, is_nil, setup-plan}
use pdf_generator.Queue.Routes.{IsWellNamed}
use pdf_generator.Queue.Reconnect.{second, set_up, connect_and_setup, attempt, handle_reconnect}
use pdf_generator.Queue.Recovery.{IsUpFrom, handle_reconnect-returns}
use pdf_generator.Examples.Samples.{outside, config, rabbit}

ne_by_test : (s t : String) → str_eq s t ≡ false → s ≢ t
ne_by_test s t h = ground (arith, eq_iff s t)

well_named : IsWellNamed config
unfolding retry_queue_name
well_named = record {
  not_jobs = ne_by_test _ _ refl;
  not_retry_1 = ne_by_test _ _ refl;
  not_retry_2 = ne_by_test _ _ refl;
  not_retry_3 = ne_by_test _ _ refl;
}

setup-plan_example :
    ((setup outside rabbit []).1 ≡ declare_all outside (some 2) (plan config) [])
    × (is_nil (setup outside rabbit []).0 ≡ accepted_all outside (some 2) (plan config) [])
setup-plan_example = setup-plan outside rabbit []

up : IsUpFrom outside config 0
unfolding attempt connect_and_setup connect connect_dialed connect_opened set_up setup
up b r log same late = refl

handle_reconnect-returns_example :
    (r' : RabbitMq) × ((handle_reconnect outside 1 second rabbit []).0 ≡ some r')
    × ((c : ℕ) × (r'.ch ≡ some c))
handle_reconnect-returns_example =
    handle_reconnect-returns outside config 0 1 second rabbit [] up refl refl (omega arith)

abbrev broken : Outside
broken = record outside { dial = λ _ _. err (other "connection refused") }

down : (b : ℕ) (r : RabbitMq) (log : Log) → (attempt broken b r log).0.0 ≢ none
unfolding attempt connect_and_setup connect connect_dialed set_up
down b r log h = cc
