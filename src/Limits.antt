-- ===== src/Limits.antt =====
-- crates/qcli-service/src/lib.rs: `ServiceLimits`. A duration is a number of milliseconds.
use conflux_query.Base.{ℕ, ◌*◌}

pub record ServiceLimits : Type 0 where
  pub max_queries : ℕ
  pub memory_result_bytes_per_query : ℕ
  pub max_result_bytes_per_query : ℕ
  pub result_ttl : ℕ
  pub max_sql_bytes : ℕ
  pub session_ttl : ℕ
  pub shutdown_grace : ℕ
  pub max_prepared_statements : ℕ
  pub prepared_statement_ttl : ℕ

-- `impl Default for ServiceLimits`
abbrev pub default_limits : ServiceLimits
default_limits = record {
  max_queries = 128;
  memory_result_bytes_per_query = 1024 * 1024;
  max_result_bytes_per_query = 64 * 1024 * 1024;
  result_ttl = 15 * 60 * 1000;
  max_sql_bytes = 1024 * 1024;
  session_ttl = 30 * 60 * 1000;
  shutdown_grace = 10 * 1000;
  max_prepared_statements = 128;
  prepared_statement_ttl = 15 * 60 * 1000;
}
