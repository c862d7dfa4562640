-- ===== src/Collector/Config/Fits.antt =====
-- What a valid configuration guarantees.
use vectorseam.Base.{ℕ, ◌+◌, ◌-◌, ◌≤◌, ◌<◌, ◌≡◌, arith, ok, some}
use vectorseam.Core.Segment.{max_segment_overhead_bytes}
use vectorseam.Collector.Config.{Config, validate_config, live_memory_bytes}
use vectorseam.Collector.Memory.{try_reserve}

-- Under a valid configuration the live budget exists, and with a full cohort buffer and the overhead of
-- its segment stays within the global cap; and a frame of any size that the reader accepts, with its
-- eight bytes of time, is granted by an empty tracker and fits the cap of a cohort.
pub validate_config_lem :
    (config : Config) (frame_bytes : ℕ)
    → validate_config config ≡ ok tt
    → frame_bytes ≤ config.max_frame_size
    → (live : ℕ) × (live_memory_bytes config ≡ ok live)
      × (live + config.per_cohort_memory_bytes + max_segment_overhead_bytes
          ≡ config.global_memory_bytes)
      × (try_reserve 0 (frame_bytes + 8) live ≡ some (frame_bytes + 8))
      × (frame_bytes + 8 ≤ config.per_cohort_memory_bytes)
      × (0 < config.window_seconds)
unfolding validate_config live_memory_bytes try_reserve
validate_config_lem config frame_bytes h l = (
  config.global_memory_bytes - (config.per_cohort_memory_bytes + max_segment_overhead_bytes),
  ground (arith, h),
  ground (arith, h),
  ground (arith, h, l),
  ground (arith, h, l),
  ground (arith, h),
)
