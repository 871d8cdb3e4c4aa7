-- ===== src/Platform/Clock.antt =====
-- platform/posix/clock_posix.c, and the deadline that pal_queue.c and pal_event.c hand to
-- `pthread_cond_timedwait`.
use embedded_provisioning_sd.Prelude.{
  ℕ, ◌+◌, ◌-◌, ◌*◌, ◌/◌, ◌%◌, ◌^◌, ◌≤◌, ◌<◌, ◌≡◌, arith, leb, if◌then◌else◌,
}

-- `struct timespec`
pub record Timespec : Type 0 where
  pub sec : ℕ
  pub nsec : ℕ

-- `struct timeval`
pub record Timeval : Type 0 where
  pub sec : ℕ
  pub usec : ℕ

-- The instant in nanoseconds.
abbrev pub nanoseconds : Timespec → ℕ
nanoseconds t = t.sec * 1000000000 + t.nsec

abbrev pub microseconds : Timeval → ℕ
microseconds t = t.sec * 1000000 + t.usec

abbrev pub IsTimeval : Timeval → Type 0
IsTimeval t = t.usec < 1000000

abbrev pub IsTimespec : Timespec → Type 0
IsTimespec t = t.nsec < 1000000000

-- `Clock_GetTimeMs` on the reading of CLOCK_MONOTONIC: the low 32 bits of the milliseconds.
unfoldable pub get_time_ms : Timespec → ℕ
get_time_ms t = (t.sec * 1000 + t.nsec / 1000000) % 2 ^ 32

pub get_time_ms-lt : (t : Timespec) → get_time_ms t < 2 ^ 32
unfolding get_time_ms
get_time_ms-lt t = omega arith

-- `Clock_SleepMs`: the argument of `nanosleep`.
unfoldable pub sleep_time : ℕ → Timespec
sleep_time ms = record { sec = ms / 1000; nsec = ms % 1000 * 1000000 }

-- The deadline of one wait: `now` of `gettimeofday`, moved on by `blockTimeMs`.
unfoldable pub deadline : Timeval → ℕ → Timespec
deadline now block =
    let sec = now.sec + block / 1000 in
    let nsec = (now.usec + block % 1000 * 1000) * 1000 in
    if leb 1000000000 nsec
    then record { sec = sec + 1; nsec = nsec - 1000000000 }
    else record { sec = sec; nsec = nsec }

-- The deadline of a wait is a valid `timespec`, and lies exactly `block` milliseconds after `now`,
-- for every `now` whose microseconds are in range.
pub deadline_lem :
    (now : Timeval) (block : ℕ)
    → IsTimeval now
    → IsTimespec (deadline now block)
      × (nanoseconds (deadline now block) ≡ microseconds now * 1000 + block * 1000000)
unfolding deadline
deadline_lem now block h = ground arith

-- `nanosleep` is asked for a valid duration of exactly `ms` milliseconds.
pub sleep_time_lem :
    (ms : ℕ) → IsTimespec (sleep_time ms) × (nanoseconds (sleep_time ms) ≡ ms * 1000000)
unfolding sleep_time
sleep_time_lem ms = omega arith

-- Two readings less than 2 ^ 32 ms apart: their difference in `uint32_t` arithmetic is the time
-- between them in milliseconds, also across a wrap of the 32-bit clock.
pub get_time_ms-sub :
    (s t : Timespec)
    → s.sec * 1000 + s.nsec / 1000000 ≤ t.sec * 1000 + t.nsec / 1000000
    → t.sec * 1000 + t.nsec / 1000000 < s.sec * 1000 + s.nsec / 1000000 + 2 ^ 32
    → (get_time_ms t + 2 ^ 32 - get_time_ms s) % 2 ^ 32
      ≡ t.sec * 1000 + t.nsec / 1000000 - (s.sec * 1000 + s.nsec / 1000000)
unfolding get_time_ms
get_time_ms-sub s t h k = omega arith
