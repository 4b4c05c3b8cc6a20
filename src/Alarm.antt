-- ===== src/Alarm.antt =====
-- atlas_client/src/alarm/atlas_alarm.c: timers over `timerfd`, each with an entry in the list of
-- alarms and one in the scheduler's list.
pub mod Timing
pub mod Watched
pub mod Trigger
use resfit.Prelude.{
  ℕ, ◌+◌, ◌*◌, ◌/◌, ◌%◌, Bool, true, false, Option, none, some, List, [], ◌∷◌, ◌++◌, ◌==◌,
  if◌then◌else◌, Exec, ok, ub, ◌>>=◌,
}
use resfit.Scheduler.{add_entry, del_entry}
use resfit.State.{
  SchedCallback, AlarmCallback, AlarmEntry, TimerSpec, TimerAnswer, no_fd, not_set, running, Client,
}

-- The period of a timer of `ms` milliseconds; one that runs once has no interval.
unfoldable pub time_spec : (ms : ℕ) → (run_once : Bool) → TimerSpec
time_spec ms run_once = record {
  interval_sec = if run_once then 0 else ms / 1000;
  interval_nsec = if run_once then 0 else ms % 1000 * 1000000;
  value_sec = ms / 1000;
  value_nsec = ms % 1000 * 1000000;
}

-- The answer of the next `timerfd_create` and `timerfd_settime`.
abbrev pub take_timer : List TimerAnswer → TimerAnswer × List TimerAnswer
take_timer [] = (no_fd, [])
take_timer (t ∷ ts) = (t, ts)

abbrev pub alarm : ℕ → AlarmCallback → Bool → AlarmEntry
alarm fd cb run_once = record { alarm_id = fd; callback = cb; run_once = run_once }

-- `atlas_alarm_set` once the timer has answered
unfoldable pub set_with :
    TimerAnswer → (ms : ℕ) → AlarmCallback → (run_once : Bool) → Client → Option ℕ × Client
set_with no_fd ms cb run_once c = (none, c)
set_with (not_set fd) ms cb run_once c =
    (none, record c { os = record (c.os) { closed = fd ∷ c.os.closed } })
set_with (running fd) ms cb run_once c = (
  some fd,
  record c {
    sched_entry = add_entry (some fd) (some SchedCallback.alarm_trigger) c.sched_entry;
    alarm_entry = c.alarm_entry ++ (alarm fd cb run_once ∷ []);
    os = record (c.os) { armed = (fd, time_spec ms run_once) ∷ c.os.armed };
  },
)

-- `atlas_alarm_set`
unfoldable pub alarm_set : (ms : ℕ) → AlarmCallback → (run_once : Bool) → Client → Option ℕ × Client
unfolding set_with
alarm_set ms cb run_once c =
    let (t, ts) = take_timer c.os.timers in
    set_with t ms cb run_once (record c { os = record (c.os) { timers = ts } })

unfoldable pub find_alarm : ℕ → List AlarmEntry → Option AlarmEntry
find_alarm id [] = none
find_alarm id (a ∷ l) = let rest = find_alarm id l in if a.alarm_id == id then some a else rest

unfoldable pub remove_alarm : ℕ → List AlarmEntry → List AlarmEntry
remove_alarm id [] = []
remove_alarm id (a ∷ l) = if a.alarm_id == id then l else a ∷ remove_alarm id l

-- `atlas_alarm_cancel` of an alarm that is in the list
abbrev pub cancel_found : ℕ → Client → Client
cancel_found id c = record c {
  alarm_entry = remove_alarm id c.alarm_entry;
  sched_entry = del_entry id c.sched_entry;
  os = record (c.os) { closed = id ∷ c.os.closed };
}

-- `atlas_alarm_cancel`
unfoldable pub alarm_cancel : (alarm_id : Option ℕ) → Client → Client
alarm_cancel none c = c
alarm_cancel (some id) c = elim (find_alarm id c.alarm_entry) [
  | none ↦ c
  | some _ ↦ cancel_found id c
]

-- The end of `atlas_alarm_trigger`. An entry that the callback has cancelled was freed, and reading
-- its `run_once` is undefined.
pub after_callback : ℕ → Client → Exec Client
after_callback fd c = elim (find_alarm fd c.alarm_entry) [
  | none ↦ ub
  | some a ↦ ok (if a.run_once then alarm_cancel (some fd) c else c)
]

-- `atlas_alarm_trigger`; `run` calls an alarm's callback
module _ (run : AlarmCallback → ℕ → Client → Exec Client) where
  unfoldable pub alarm_trigger : ℕ → Client → Exec Client
  unfolding after_callback
  alarm_trigger fd c = elim (find_alarm fd c.alarm_entry) [
    | none ↦ ok c
    | some a ↦ run a.callback fd c >>= after_callback fd
  ]
