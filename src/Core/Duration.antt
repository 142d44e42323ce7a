-- ===== src/Core/Duration.antt =====
-- `std::time::Duration` and `Instant`: a number of nanoseconds, an instant since the process epoch.
use rakka_inference.Base.{ℕ, ◌*◌, ◌/◌, ◌%◌, ◌^◌}

abbrev pub nanos_per_milli : ℕ
nanos_per_milli = 1_000_000

abbrev pub as_millis : ℕ → ℕ
as_millis d = d / nanos_per_milli

abbrev pub from_millis : ℕ → ℕ
from_millis n = n * nanos_per_milli

abbrev pub from_secs : ℕ → ℕ
from_secs n = n * 1_000_000_000

-- `x as u64`.
abbrev pub u64 : ℕ → ℕ
u64 n = n % 2 ^ 64

-- Unsigned arithmetic of 32 bits, in a release build.
abbrev pub u32 : ℕ → ℕ
u32 n = n % 2 ^ 32
