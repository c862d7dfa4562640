-- ===== src/Collector/Config.antt =====
-- crates/vectorseam-collector/src/config.rs: the numbers of the configuration and their validation.
-- Addresses, paths and switches are left out, since nothing here depends on them.
pub mod Fits
use vectorseam.Base.{
  ℕ, ◌+◌, ◌-◌, ◌*◌, Option, none, some, Result, ok, err, ◌>>=◌, ◌>>◌, fail_if, ok_or, ltb, ◌==◌,
  checked_add, checked_sub, usize_max,
}
use vectorseam.Core.Frame.{fixed_frame_header_len}
use vectorseam.Core.Segment.{max_segment_overhead_bytes}
use vectorseam.Collector.Reader.{ReaderConfig}
use vectorseam.Collector.Writer.{WriterConfig}

pub record Config : Type 0 where
  pub window_seconds : ℕ
  pub per_cohort_memory_bytes : ℕ
  pub global_memory_bytes : ℕ
  pub max_frame_size : ℕ
  pub channel_capacity : ℕ
  pub max_connections : ℕ
  pub idle_timeout_seconds : ℕ
  pub put_timeout_seconds : ℕ

-- The defaults of the command line.
abbrev pub default_config : Config
default_config = record {
  window_seconds = 600;
  per_cohort_memory_bytes = 32 * 1024 * 1024;
  global_memory_bytes = 256 * 1024 * 1024;
  max_frame_size = 32 * 1024;
  channel_capacity = 2048;
  max_connections = 2048;
  idle_timeout_seconds = 300;
  put_timeout_seconds = 60;
}

-- The messages of the `anyhow!` errors, by what they complain of.
pub data ConfigError : Type 0 where
  zero_window zero_per_cohort_cap zero_global_cap frame_size_too_small frame_size_too_large :
      ConfigError
  per_cohort_cap_too_small global_cap_too_small zero_capacity zero_connections : ConfigError
  zero_idle_timeout zero_put_timeout per_cohort_cap_too_large global_cap_below_reserve : ConfigError

unfoldable pub live_memory_bytes : Config → Result ConfigError ℕ
live_memory_bytes config = do
  flush_reserve ←
      ok_or (checked_add usize_max config.per_cohort_memory_bytes max_segment_overhead_bytes)
        per_cohort_cap_too_large
  ok_or (checked_sub config.global_memory_bytes flush_reserve) global_cap_below_reserve

unfoldable pub validate_config : Config → Result ConfigError (Unit {0})
unfolding live_memory_bytes
validate_config config = do
  fail_if (config.window_seconds == 0) zero_window
  fail_if (config.per_cohort_memory_bytes == 0) zero_per_cohort_cap
  fail_if (config.global_memory_bytes == 0) zero_global_cap
  fail_if (ltb config.max_frame_size fixed_frame_header_len) frame_size_too_small
  max_record_bytes ← ok_or (checked_add usize_max config.max_frame_size 8) frame_size_too_large
  fail_if (ltb config.per_cohort_memory_bytes max_record_bytes) per_cohort_cap_too_small
  live ← live_memory_bytes config
  fail_if (ltb live max_record_bytes) global_cap_too_small
  fail_if (config.channel_capacity == 0) zero_capacity
  fail_if (config.max_connections == 0) zero_connections
  fail_if (config.idle_timeout_seconds == 0) zero_idle_timeout
  fail_if (config.put_timeout_seconds == 0) zero_put_timeout
  ok tt
