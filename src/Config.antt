-- ===== src/Config.antt =====
-- config/config.go: the settings that config.Init reads from config.yaml.
use im_system.Common.{ℕ, Text, Bool}

pub record ServerConfig : Type 0 where
  pub port : ℕ
  pub mode : Text

pub record MysqlConfig : Type 0 where
  pub host : Text
  pub port : ℕ
  pub user : Text
  pub password : Text
  pub db_name : Text
  pub max_open_conns : ℕ
  pub max_idle_conns : ℕ

pub record RedisConfig : Type 0 where
  pub host : Text
  pub port : ℕ
  pub password : Text

pub record JwtConfig : Type 0 where
  pub secret : Text
  pub expire : ℕ

pub record ZapConfig : Type 0 where
  pub is_dev : Bool
  pub level : Text

pub record RabbitMqConfig : Type 0 where
  pub host : Text
  pub port : ℕ
  pub user : Text
  pub password : Text
  pub vhost : Text

pub record Config : Type 0 where
  pub server : ServerConfig
  pub mysql : MysqlConfig
  pub redis : RedisConfig
  pub jwt : JwtConfig
  pub zap : ZapConfig
  pub rabbit_mq : RabbitMqConfig
