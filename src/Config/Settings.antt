-- ===== src/Config/Settings.antt =====
-- The structs of the configuration, and `DSN`. A duration is an `int64` of nanoseconds.
use Prim.Native.String.{◌++◌}
use pdf_generator.Prelude.{String}
use pdf_generator.Prelude.Int.{ℤ}
use pdf_generator.Queue.Connection.{RabbitMqConfig}

pub record ServerConfig : Type 0 where
  pub host : String
  pub port : String
  pub read_timeout : ℤ
  pub write_timeout : ℤ
  pub idle_timeout : ℤ

pub record DbConfig : Type 0 where
  pub host : String
  pub port : String
  pub user : String
  pub password : String
  pub db_name : String
  pub ssl_mode : String
  pub max_conns : ℤ
  pub min_conns : ℤ

-- `JWTConfig`. Token/Manager.antt has the part of it that issues tokens, with times to live that are
-- not negative.
pub record JwtSection : Type 0 where
  pub access_secret : String
  pub refresh_secret : String
  pub access_ttl : ℤ
  pub refresh_ttl : ℤ

pub record WorkerConfig : Type 0 where
  pub concurrency : ℤ
  pub max_retries : ℤ

pub record PdfConfig : Type 0 where
  pub output_dir : String

-- `F` stands for `float64`.
pub record RateConfig (F : Type 0) : Type 0 where
  pub rps : F
  pub burst : ℤ

pub record SseConfig : Type 0 where
  pub max_connections : ℤ
  pub client_buffer : ℤ

pub record Config (F : Type 0) : Type 0 where
  pub server : ServerConfig
  pub db : DbConfig
  pub rabbit_mq : RabbitMqConfig
  pub jwt : JwtSection
  pub worker : WorkerConfig
  pub pdf : PdfConfig
  pub rate : RateConfig F
  pub sse : SseConfig

-- `DSN`: nothing is escaped.
unfoldable pub dsn : DbConfig → String
dsn db =
    "postgres://"
    ++ (db.user
        ++ (":"
            ++ (db.password
                ++ ("@"
                    ++ (db.host
                        ++ (":"
                            ++ (db.port
                                ++ ("/" ++ (db.db_name ++ ("?sslmode=" ++ db.ssl_mode))))))))))
