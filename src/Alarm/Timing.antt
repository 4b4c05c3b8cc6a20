-- ===== src/Alarm/Timing.antt =====
-- The time that an alarm is set to.
use resfit.Prelude.{ℕ, ◌+◌, ◌*◌, ◌<◌, ◌≡◌, refl, Bool, if◌then◌else◌, arith}
use resfit.Alarm.{time_spec}

-- The timer first runs out after exactly `ms` milliseconds, its nanoseconds are less than a second,
-- and it runs again after the same time, or never if it runs once.
pub time_spec_lem :
    (ms : ℕ) (run_once : Bool)
    → let t = time_spec ms run_once in
      (t.value_sec * 1000000000 + t.value_nsec ≡ ms * 1000000)
      × (t.value_nsec < 1000000000)
      × (t.interval_sec ≡ (if run_once then 0 else t.value_sec))
      × (t.interval_nsec ≡ (if run_once then 0 else t.value_nsec))
unfolding time_spec
time_spec_lem ms run_once = (omega arith, omega arith, refl, refl)
