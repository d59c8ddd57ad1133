-- ===== src/Examples/Command.antt =====
-- The outside of cmd/worker/main.go and cmd/api/main.go, where all answers are good.
use pdf_generator.Prelude.{ℕ, none}
use pdf_generator.Command.Startup.{Platform}
use pdf_generator.Examples.Config.{environment, floats}

abbrev pub platform : Platform ℕ
platform = record {
  env = environment;
  floats = floats;
  parse_config = λ _. none;
  new_with_config = λ _. none;
  ping = λ _. none;
  make_dirs = λ _. none;
}
