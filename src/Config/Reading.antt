-- ===== src/Config/Reading.antt =====
-- What comes of an environment.
use Prim.Native.String.{◌++◌}
use text.Mathlib.Text.{◌==◌ as str_eq}
use text.Mathlib.TextEquality.{eq_iff}
use text.Mathlib.TextLemmas.{append_assoc}
use pdf_generator.Prelude.{
  ℕ, ◌<◌, ◌-◌, ◌^◌, ◌%◌, String, false, ◌≡◌, ◌≢◌, ◌↔◌, ◌⊎◌, refl, sym, ap, ◌∙◌, arith, Bool-cases,
  inl, inr,
}
use pdf_generator.Prelude.Int.{ℤ, pos, negsuc, ◌≤ℤ◌, IsInt64}
use pdf_generator.Go.{ok, err, other, show_int}
use pdf_generator.Go.Strconv.{atoi}
use pdf_generator.Go.Strconv.RoundTrip.{atoi-show_int}
use pdf_generator.Queue.Routes.{IsWellNamed, ne_of_test}
use pdf_generator.Queue.Connection.{RabbitMqConfig}
use pdf_generator.Queue.Topology.{retry_queue_name}
use pdf_generator.Config.Settings.{DbConfig, Config, dsn}
use pdf_generator.Config.Load.{
  signed32, int32, Environment, get_env, get_int_env, FloatLibrary, settings, load,
}

int32_pos : (n : ℕ) → n < 2 ^ 31 → int32 (pos n) ≡ pos n
unfolding int32
int32_pos n h = ground arith

int32_negsuc : (n : ℕ) → n < 2 ^ 31 → int32 (negsuc n) ≡ negsuc n
unfolding int32
int32_negsuc n h = ground arith

signed32_range :
    (m : ℕ) → m < 2 ^ 32 → (negsuc (2 ^ 31 - 1) ≤ℤ signed32 m) × (signed32 m ≤ℤ pos (2 ^ 31 - 1))
signed32_range m h = (ground arith, ground arith)

-- The number of connections of the pool is always an `int32`, and it is the number that was read exactly
-- where that is one; any other is replaced by another number without an error.
pub int32-bounds :
    (i : ℤ)
    → (negsuc (2 ^ 31 - 1) ≤ℤ int32 i)
      × (int32 i ≤ℤ pos (2 ^ 31 - 1))
      × ((int32 i ≡ i) ↔ ((negsuc (2 ^ 31 - 1) ≤ℤ i) × (i ≤ℤ pos (2 ^ 31 - 1))))
unfolding int32
int32-bounds (pos n) =
    let (low, high) = signed32_range (n % 2 ^ 32) (omega arith) in
    (low, high, (λ e. (rw e at low, rw e at high), λ h. int32_pos n (omega arith)))
int32-bounds (negsuc n) =
    let (low, high) = signed32_range (2 ^ 32 - 1 - n % 2 ^ 32) (omega arith) in
    (low, high, (λ e. (rw e at low, rw e at high), λ h. int32_negsuc n (omega arith)))

show_int-set : (i : ℤ) → IsInt64 i → str_eq (show_int i) "" ≡ false
unfolding atoi
show_int-set i h = elim (Bool-cases (str_eq (show_int i) "")) [
  | inl unset ↦
      cc (ap (λ x. x.1) (sym (atoi-show_int i h) ∙ ap atoi ((eq_iff (show_int i) "").0 unset)))
  | inr set ↦ set
]

-- An `int` in decimal digits in the environment is read as that number, whatever the fallback is.
pub get_int_env-show_int :
    (env : Environment) (key : String) (fallback i : ℤ)
    → IsInt64 i
    → env key ≡ show_int i
    → get_int_env env key fallback ≡ i
unfolding get_int_env
get_int_env-show_int env key fallback i h e = rw e (rw (show_int-set i h, atoi-show_int i h) refl)

named_by_default :
    (cfg : RabbitMqConfig)
    → cfg.job_queue ≡ "pdf_jobs"
    → cfg.job_dlq ≡ "pdf_jobs_dlq"
    → IsWellNamed cfg
unfolding retry_queue_name
named_by_default cfg jobs dlq = record {
  not_jobs = rw (jobs, dlq) (ne_of_test _ _ refl);
  not_retry_1 = rw (jobs, dlq) (ne_of_test _ _ refl);
  not_retry_2 = rw (jobs, dlq) (ne_of_test _ _ refl);
  not_retry_3 = rw (jobs, dlq) (ne_of_test _ _ refl);
}

module _ {F : Type 0} (lib : FloatLibrary F) (env : Environment) where
  unset_as_empty : (key : String) → get_env env key "" ≡ env key
  unfolding get_env
  unset_as_empty key = elim (Bool-cases (str_eq (env key) "")) [
    | inl unset ↦ rw unset (sym ((eq_iff (env key) "").0 unset))
    | inr set ↦ rw set refl
  ]

  -- `Load` succeeds exactly where both secrets are set, and otherwise its error names the first of them
  -- that is not.
  pub load-secrets :
      ((env "JWT_ACCESS_SECRET" ≢ "")
        × (env "JWT_REFRESH_SECRET" ≢ "")
        × (load lib env ≡ ok (settings lib env)))
      ⊎ ((env "JWT_ACCESS_SECRET" ≡ "")
          × (load lib env ≡ err (other "JWT_ACCESS_SECRET is required")))
      ⊎ ((env "JWT_ACCESS_SECRET" ≢ "")
          × (env "JWT_REFRESH_SECRET" ≡ "")
          × (load lib env ≡ err (other "JWT_REFRESH_SECRET is required")))
  unfolding load settings
  load-secrets = elim (Bool-cases (str_eq (env "JWT_ACCESS_SECRET") "")) [
    | inl no_access ↦ inr (
        inl
          ((eq_iff _ "").0 no_access, rw (unset_as_empty "JWT_ACCESS_SECRET") (rw no_access refl)))
    | inr access ↦ elim (Bool-cases (str_eq (env "JWT_REFRESH_SECRET") "")) [
      | inl no_refresh ↦ inr (
          inr (
            ne_of_test _ _ access,
            (eq_iff _ "").0 no_refresh,
            rw (unset_as_empty "JWT_ACCESS_SECRET", unset_as_empty "JWT_REFRESH_SECRET")
                (rw (access, no_refresh) refl),
          ))
      | inr refresh ↦ inl (
        ne_of_test _ _ access,
        ne_of_test _ _ refresh,
        rw (unset_as_empty "JWT_ACCESS_SECRET", unset_as_empty "JWT_REFRESH_SECRET")
            (rw (access, refresh) refl),
      )
    ]
  ]

  loaded_settings : (cfg : Config F) → load lib env ≡ ok cfg → cfg ≡ settings lib env
  loaded_settings cfg loaded = elim load-secrets [
    | inl (_, _, is_ok) ↦ cc
    | inr (inl (_, is_err)) ↦ cc
    | inr (inr (_, _, is_err)) ↦ cc
  ]

  -- Where the names of the job queue and of the dead letter queue are not set, the configuration that
  -- `Load` returns names the queues so that the dead letter queue has a name of its own.
  pub load-IsWellNamed :
      (cfg : Config F)
      → load lib env ≡ ok cfg
      → env "RABBITMQ_JOB_QUEUE" ≡ ""
      → env "RABBITMQ_JOB_DLQ" ≡ ""
      → IsWellNamed cfg.rabbit_mq
  unfolding settings get_env
  load-IsWellNamed cfg loaded jobs dlq =
      named_by_default cfg.rabbit_mq
        (ap (λ c. c.rabbit_mq.job_queue) (loaded_settings cfg loaded) ∙ rw jobs refl)
        (ap (λ c. c.rabbit_mq.job_dlq) (loaded_settings cfg loaded) ∙ rw dlq refl)

-- The text of the connection does not determine the user and the password: a colon in one of them is
-- not told from the one between them.
pub dsn-colon :
    (db : DbConfig) (u p q : String)
    → dsn (record db { user = u ++ ":" ++ p; password = q })
      ≡ dsn (record db { user = u; password = p ++ ":" ++ q })
unfolding dsn
dsn-colon db u p q = simp append_assoc
