-- ===== src/Service/Validator.antt =====
-- internal/validator/validator.go: the errors of `validate.Struct`, with their texts.
use Prim.Native.String.{◌++◌}
use text.Mathlib.Text.{◌==◌}
use pdf_generator.Prelude.{String, List, [], ◌∷◌, map, Option, none, some, if◌then◌else◌}
use pdf_generator.Go.{ValidationError}
use pdf_generator.Domain.{CreateJobRequest}
use pdf_generator.World.{FieldError, Outside}

unfoldable pub format_error : FieldError → String
format_error e =
    if e.tag == "required"
    then e.field ++ " is required"
    else if e.tag == "min"
    then e.field ++ " must be at least " ++ e.param ++ " characters"
    else if e.tag == "max"
    then e.field ++ " must be at most " ++ e.param ++ " characters"
    else e.field ++ " is invalid"

unfoldable pub validation_error : FieldError → ValidationError
unfolding format_error
validation_error e = record { field = e.field; message = format_error e }

-- `none` is nil.
abbrev nil_if_empty : List ValidationError → Option (List ValidationError)
nil_if_empty [] = none
nil_if_empty (e ∷ es) = some (e ∷ es)

unfoldable pub validate_create_job_request :
    Outside → CreateJobRequest → Option (List ValidationError)
unfolding validation_error
validate_create_job_request o req = nil_if_empty (map validation_error (o.validate_struct req))
