-- ===== src/Alarm/Trigger.antt =====
-- What a timer that runs out does to the list of alarms.
use resfit.Prelude.{ℕ, ◌≡◌, ◌∙◌, none, some, arith, if◌then◌else◌, Exec, ok, ub}
use resfit.State.{AlarmCallback, AlarmEntry, Client}
use resfit.Alarm.{find_alarm, cancel_found, alarm_cancel, after_callback, alarm_trigger}

module _ (run : AlarmCallback → ℕ → Client → Exec Client) where
  -- A descriptor that no alarm has is ignored.
  trigger_none :
      (fd : ℕ) (c : Client) → find_alarm fd c.alarm_entry ≡ none → alarm_trigger run fd c ≡ ok c
  unfolding alarm_trigger
  trigger_none fd c e = rw (alarm_trigger, e)

  trigger_some :
      (fd : ℕ) (c c' : Client) (a : AlarmEntry)
      → find_alarm fd c.alarm_entry ≡ some a
      → run a.callback fd c ≡ ok c'
      → alarm_trigger run fd c ≡ after_callback fd c'
  unfolding alarm_trigger
  trigger_some fd c c' a e ran = rw (alarm_trigger, e, ran)

  -- A timer that runs out calls the callback of its alarm. If the callback ends and leaves that
  -- alarm in the list as it was, an alarm that runs once is then cancelled, which closes its
  -- descriptor and marks its entry of the scheduler; any other alarm stays as the callback left
  -- it.
  pub alarm_trigger_lem :
      (fd : ℕ) (c c' : Client) (a : AlarmEntry)
      → find_alarm fd c.alarm_entry ≡ some a
      → run a.callback fd c ≡ ok c'
      → find_alarm fd c'.alarm_entry ≡ some a
      → alarm_trigger run fd c ≡ ok (if a.run_once then cancel_found fd c' else c')
  unfolding after_callback alarm_cancel
  alarm_trigger_lem fd c c' a e ran stays = trigger_some fd c c' a e ran ∙ ground arith

  -- A callback that cancels the alarm by which it is called frees the entry, whose `run_once` is
  -- read afterwards: undefined behaviour.
  pub alarm_trigger_freed :
      (fd : ℕ) (c c' : Client) (a : AlarmEntry)
      → find_alarm fd c.alarm_entry ≡ some a
      → run a.callback fd c ≡ ok c'
      → find_alarm fd c'.alarm_entry ≡ none
      → alarm_trigger run fd c ≡ ub
  unfolding after_callback
  alarm_trigger_freed fd c c' a e ran gone = trigger_some fd c c' a e ran ∙ ground arith
