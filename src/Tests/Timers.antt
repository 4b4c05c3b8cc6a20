-- ===== src/Tests/Timers.antt =====
-- The scheduler and the alarms at concrete lists.
use resfit.Prelude.{
  ℕ, suc, ◌≡◌, ◌≢◌, refl, arith, true, false, some, List, [], ◌∷◌, ◌++◌, length-append, Exec, ok,
}
use resfit.State.{SchedCallback, SchedEntry, AlarmCallback, Client}
use resfit.Scheduler.{entry, del_entry, sweep, dispatch}
use resfit.Scheduler.Sweep.{DistinctFds, live, without, sweep-del_entry}
use resfit.Scheduler.Ready.{Ready, Listed, Called, AllReady, Keeps-append}
use resfit.Scheduler.Dispatch.{Behaves, Calls, dispatch_ends}
use resfit.Alarm.{alarm_set, alarm_cancel}
use resfit.Alarm.Watched.{watches, has_alarm, Watched, alarm_set-Watched, alarm_cancel-Watched}
use resfit.Tests.{client}

abbrev marked : ℕ → SchedEntry
marked fd = record { fd = fd; callback = SchedCallback.alarm_trigger; dirty = true }

-- Three entries, the middle one deleted.
abbrev entries : List SchedEntry
entries = entry 4 SchedCallback.coap_server ∷ (marked 9 ∷ (entry 6 SchedCallback.coap_client ∷ []))

sweep-del_entry_example : (sweep (del_entry 6 entries)).sched_entry ≡ without 6 (live entries)
sweep-del_entry_example = sweep-del_entry 6 entries (
  ((λ p. absurd (omega arith)), ((λ p. absurd (omega arith)), tt)),
  (((λ p. absurd (omega arith)), tt), (tt, tt)),
)

-- A callback that adds an entry and counts its calls.
abbrev busy : SchedCallback → ℕ → List SchedEntry × ℕ → Exec (List SchedEntry × ℕ)
busy cb fd (es, n) = ok (es ++ (entry 20 cb ∷ []), suc n)

abbrev AtAll : List SchedEntry × ℕ → Type 0
AtAll w = Unit {0}

busy-Behaves : Behaves (λ w. w.0) busy AtAll 1 (4 ∷ (6 ∷ []))
busy-Behaves w n e h at clean set = (
  (w.0 ++ (entry 20 e.callback ∷ []), suc w.1),
  refl,
  tt,
  omega (arith, length-append w.0 (entry 20 e.callback ∷ [])),
  Keeps-append w.0 (entry 20 e.callback ∷ []),
)

dispatch_ends_example :
    (w' : List SchedEntry × ℕ) × (es : List SchedEntry) × (dispatch
        (λ w. w.0)
        busy
        6
        0
        (4 ∷ (6 ∷ []))
        (entries, 0)
      ≡ ok w')
    × Calls (λ w. w.0) busy AtAll 1 (entries, 0) es w'
    × AllReady (4 ∷ (6 ∷ [])) es
    × DistinctFds es
    × ((d : SchedEntry)
        → Listed d w'.0
        → d.dirty ≡ false
        → Ready d.fd (4 ∷ (6 ∷ []))
        → Called d.fd es)
dispatch_ends_example =
    dispatch_ends (λ w. w.0) busy AtAll 1 6 (4 ∷ (6 ∷ [])) (entries, 0) busy-Behaves tt
      (omega arith)

-- The alarm and the scheduler's entry of the waiting request belong together.
pub client-Watched : Watched client
client-Watched = record {
  distinct_fds = (((λ p. absurd (omega arith)), tt), (tt, tt));
  distinct_alarms = (refl, tt);
  agree = λ fd. ground arith;
}

alarm_set-Watched_example : Watched (alarm_set 3000 AlarmCallback.register true client).1
alarm_set-Watched_example =
    alarm_set-Watched 3000 AlarmCallback.register true client client-Watched
      ((λ p. absurd (omega arith)), ((λ p. absurd (omega arith)), tt))

alarm_cancel-Watched_example :
    Watched (alarm_cancel (some 9) client)
    × (watches 9 (alarm_cancel (some 9) client).sched_entry ≡ false)
    × ((g : ℕ)
        → g ≢ 9
        → has_alarm g (alarm_cancel (some 9) client).alarm_entry ≡ has_alarm g client.alarm_entry)
alarm_cancel-Watched_example = alarm_cancel-Watched 9 client client-Watched

-- A callback that cancels the alarm that calls it.
abbrev cancelling : AlarmCallback → ℕ → Client → Exec Client
cancelling cb fd c = ok (alarm_cancel (some fd) c)
