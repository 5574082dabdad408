-- ===== src/Config.antt =====
-- src/config.rs. Durations are milliseconds.
use horaedb_client_rs.Prelude.{ℕ, ◌*◌, ◌^◌, Bool, true, Option, none, Str, ℤ, pos}

pub record RpcConfig : Type 0 where
  pub thread_num : Option ℕ
  pub max_send_msg_len : ℤ
  pub max_recv_msg_len : ℤ
  pub keep_alive_interval : ℕ
  pub keep_alive_timeout : ℕ
  pub keep_alive_while_idle : Bool
  pub default_write_timeout : ℕ
  pub default_sql_query_timeout : ℕ
  pub connect_timeout : ℕ

pub record Authorization : Type 0 where
  pub username : Str
  pub password : Str

unfoldable pub default : RpcConfig
default = record {
  thread_num = none;
  max_send_msg_len = pos (20 * 2 ^ 20);
  max_recv_msg_len = pos (2 ^ 30);
  keep_alive_interval = 600000;
  keep_alive_timeout = 3000;
  keep_alive_while_idle = true;
  default_write_timeout = 5000;
  default_sql_query_timeout = 60000;
  connect_timeout = 3000;
}
