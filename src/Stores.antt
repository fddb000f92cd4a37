-- ===== src/Stores.antt =====
-- What a process opens before it serves: config.Init of config/config.go, pkg/mysql/mysql.go,
-- pkg/redis/redis.go and pkg/logger/logger.go. viper, gorm, go-redis and zap are arguments: a
-- result for each call whose error is tested, or a record.
use im_system.Common.{ℕ, Text, bytes, ◌++◌, Bool, true, if◌then◌else◌, Result, ok, err}
use im_system.Common.Decimal.{decimal}
use im_system.Config.{Config, MysqlConfig, RedisConfig}

-- Init of config: the file is found and parsed, then decoded. An error is wrapped in a text.
unfoldable pub config_init : Result (Unit {0}) → Result Config → Result Config
config_init (err e) decoded = err e
config_init (ok u) decoded = decoded

-- fmt.Sprintf("%s:%s@tcp(%s:%d)/%s?charset=utf8mb4&parseTime=True&loc=Local", …)
abbrev pub dsn : MysqlConfig → Text
dsn c =
    c.user
    ++ (bytes ":"
        ++ (c.password
            ++ (bytes "@tcp("
                ++ (c.host
                    ++ (bytes ":"
                        ++ (decimal c.port
                            ++ (bytes ")/"
                                ++ (c.db_name
                                    ++ bytes "?charset=utf8mb4&parseTime=True&loc=Local"))))))))

-- The pool that is set up, with its times in seconds.
pub record Pool : Type 0 where
  pub source : Text
  pub max_open_conns : ℕ
  pub max_idle_conns : ℕ
  pub conn_max_lifetime : ℕ
  pub conn_max_idle_time : ℕ

-- Init of mysqldb; the errors of AutoMigrate and of DB.DB are dropped.
unfoldable pub mysql_init : (Text → Result (Unit {0})) → MysqlConfig → Result Pool
mysql_init open_db c = elim (open_db (dsn c)) [
  | err e ↦ err e
  | ok u ↦ ok (record {
    source = dsn c;
    max_open_conns = c.max_open_conns;
    max_idle_conns = c.max_idle_conns;
    conn_max_lifetime = 3600;
    conn_max_idle_time = 600;
  })
]

-- fmt.Sprintf("%s:%d", host, port)
abbrev pub redis_address : RedisConfig → Text
redis_address c = c.host ++ (bytes ":" ++ decimal c.port)

-- Init of redisdb, on what Ping answers for an address and a password.
abbrev pub redis_init : (Text → Text → Result (Unit {0})) → RedisConfig → Result (Unit {0})
redis_init ping c = ping (redis_address c) c.password

pub record ZapLib : Type 1 where
  pub Level : Type 0
  pub info : Level
  pub error : Level
  pub parse : Text → Result Level

pub data Encoder : Type 0 where
  json plain_console coloured_console : Encoder

-- The two cores of the logger: a file that is rotated (size in MB, age in days), and stdout.
pub record Logger (Z : ZapLib) : Type 0 where
  pub file_encoder : Encoder
  pub file_level : Z.Level
  pub filename : Text
  pub max_size : ℕ
  pub max_backups : ℕ
  pub max_age : ℕ
  pub compress : Bool
  pub console_encoder : Encoder
  pub console_level : Z.Level

abbrev pub level_or_info : (Z : ZapLib) → Result Z.Level → Z.Level
level_or_info Z (ok level) = level
level_or_info Z (err e) = Z.info

-- fmt.Sprintf("logs/im_system_%d.log", port)
abbrev pub log_file : ℕ → Text
log_file port = bytes "logs/im_system_" ++ (decimal port ++ bytes ".log")

-- Init of logger
unfoldable pub logger_init : (Z : ZapLib) → Config → Logger Z
logger_init Z c = record {
  file_encoder = if c.zap.is_dev then plain_console else json;
  file_level = level_or_info Z (Z.parse c.zap.level);
  filename = log_file c.server.port;
  max_size = 100;
  max_backups = 10;
  max_age = 7;
  compress = true;
  console_encoder = if c.zap.is_dev then coloured_console else json;
  console_level = Z.error;
}
