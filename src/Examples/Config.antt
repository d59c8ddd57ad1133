-- ===== src/Examples/Config.antt =====
-- internal/config/config.go at a concrete environment: the two secrets, and a number of retries.
use text.Mathlib.Text.{◌==◌ as str_eq}
use pdf_generator.Prelude.{ℕ, ◌≡◌, refl, none, if◌then◌else◌, arith}
use pdf_generator.Prelude.Int.{pos, negsuc}
use pdf_generator.Go.{show_int, show_nat}
use pdf_generator.Config.Load.{Environment, FloatLibrary, get_int_env}
use pdf_generator.Config.Reading.{get_int_env-show_int}

abbrev pub environment : Environment
environment key =
    if str_eq key "JWT_ACCESS_SECRET"
    then "one"
    else if str_eq key "JWT_REFRESH_SECRET"
    then "two"
    else if str_eq key "WORKER_MAX_RETRIES"
    then "-12"
    else ""

abbrev pub floats : FloatLibrary ℕ
floats = record { twenty = 20; parse_float = λ _. none; parse_duration = λ _. none }

get_int_env-show_int_example : get_int_env environment "WORKER_MAX_RETRIES" (pos 3) ≡ negsuc 11
unfolding show_int show_nat
get_int_env-show_int_example =
    get_int_env-show_int environment "WORKER_MAX_RETRIES" (pos 3) (negsuc 11) (omega arith) refl
