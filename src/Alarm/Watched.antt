-- ===== src/Alarm/Watched.antt =====
-- Every alarm has an entry of the scheduler that is not marked, and the other way round.
use resfit.Prelude.{
  ℕ, ◌≡◌, ◌≢◌, refl, ap, Bool, true, false, not, ◌&&◌, Option, none, some, List, [], ◌∷◌, ◌++◌,
  arith, ◌==◌, if◌then◌else◌, sym, ◌∙◌,
}
use resfit.State.{
  SchedCallback, SchedEntry, AlarmCallback, AlarmEntry, TimerAnswer, no_fd, not_set, running,
  Client,
}
use resfit.Scheduler.{add_entry, del_entry}
use resfit.Scheduler.Sweep.{Absent, DistinctFds}
use resfit.Alarm.{
  take_timer, set_with, alarm_set, find_alarm, remove_alarm, cancel_found, alarm_cancel,
}

abbrev is_trigger : SchedCallback → Bool
is_trigger SchedCallback.alarm_trigger = true
is_trigger _ = false

abbrev is_watch : ℕ → SchedEntry → Bool
is_watch fd e = e.fd == fd && (not e.dirty && is_trigger e.callback)

-- The scheduler watches the descriptor for an alarm.
abbrev pub watches : ℕ → List SchedEntry → Bool
watches fd [] = false
watches fd (e ∷ es) = let rest = watches fd es in if is_watch fd e then true else rest

-- The list holds an alarm of the descriptor.
abbrev pub has_alarm : ℕ → List AlarmEntry → Bool
has_alarm fd [] = false
has_alarm fd (a ∷ l) = let rest = has_alarm fd l in if a.alarm_id == fd then true else rest

abbrev pub DistinctAlarms : List AlarmEntry → Type 0
DistinctAlarms [] = Unit {0}
DistinctAlarms (a ∷ l) = (has_alarm a.alarm_id l ≡ false) × DistinctAlarms l

-- The scheduler's entries and the alarms agree: no two entries of the scheduler and no two alarms
-- have the same descriptor, and a descriptor is watched for an alarm exactly if it has one.
pub record Watched (c : Client) : Type 0 where
  pub distinct_fds : DistinctFds c.sched_entry
  pub distinct_alarms : DistinctAlarms c.alarm_entry
  pub agree : (fd : ℕ) → watches fd c.sched_entry ≡ has_alarm fd c.alarm_entry

watches-Absent : (fd : ℕ) (es : List SchedEntry) → Absent fd es → watches fd es ≡ false
watches-Absent fd [] h = refl
watches-Absent fd (e ∷ es) h = ground (arith, watches-Absent fd es h.1)

watches-add_entry :
    (fd g : ℕ) (es : List SchedEntry)
    → watches g (add_entry (some fd) (some SchedCallback.alarm_trigger) es)
      ≡ (if fd == g then true else watches g es)
unfolding add_entry
watches-add_entry fd g [] = ground arith
watches-add_entry fd g (e ∷ es) = ground (arith, watches-add_entry fd g es)

watches-del_entry :
    (fd g : ℕ) (es : List SchedEntry)
    → DistinctFds es
    → watches g (del_entry fd es) ≡ (if fd == g then false else watches g es)
unfolding del_entry
watches-del_entry fd g [] h = ground arith
watches-del_entry fd g (e ∷ es) h =
    ground (arith, watches-Absent e.fd es h.0, watches-del_entry fd g es h.1)

Absent-add_entry :
    (fd g : ℕ) (cb : SchedCallback) (es : List SchedEntry)
    → Absent g es
    → fd ≢ g
    → Absent g (add_entry (some fd) (some cb) es)
unfolding add_entry
Absent-add_entry fd g cb [] h ne = (ne, tt)
Absent-add_entry fd g cb (e ∷ es) h ne = (h.0, Absent-add_entry fd g cb es h.1 ne)

DistinctFds-add_entry :
    (fd : ℕ) (cb : SchedCallback) (es : List SchedEntry)
    → DistinctFds es
    → Absent fd es
    → DistinctFds (add_entry (some fd) (some cb) es)
unfolding add_entry
DistinctFds-add_entry fd cb [] h out = (tt, tt)
DistinctFds-add_entry fd cb (e ∷ es) h out = (
  Absent-add_entry fd e.fd cb es h.0 (λ p. out.0 (sym p)),
  DistinctFds-add_entry fd cb es h.1 out.1,
)

Absent-del_entry : (fd g : ℕ) (es : List SchedEntry) → Absent g es → Absent g (del_entry fd es)
unfolding del_entry
Absent-del_entry fd g [] h = tt
Absent-del_entry fd g (e ∷ es) h = ground (arith, Absent-del_entry fd g es h.1)

pub DistinctFds-del_entry :
    (fd : ℕ) (es : List SchedEntry) → DistinctFds es → DistinctFds (del_entry fd es)
unfolding del_entry
DistinctFds-del_entry fd [] h = tt
DistinctFds-del_entry fd (e ∷ es) h =
    ground (arith, Absent-del_entry fd e.fd es h.0, DistinctFds-del_entry fd es h.1)

has_alarm-append :
    (fd : ℕ) (l : List AlarmEntry) (a : AlarmEntry)
    → has_alarm fd (l ++ (a ∷ [])) ≡ (if a.alarm_id == fd then true else has_alarm fd l)
has_alarm-append fd [] a = refl
has_alarm-append fd (x ∷ l) a = ground (arith, has_alarm-append fd l a)

pub has_alarm-remove_alarm :
    (fd g : ℕ) (l : List AlarmEntry)
    → DistinctAlarms l
    → has_alarm g (remove_alarm fd l) ≡ (if fd == g then false else has_alarm g l)
unfolding remove_alarm
has_alarm-remove_alarm fd g [] h = ground arith
has_alarm-remove_alarm fd g (a ∷ l) h = ground (arith, has_alarm-remove_alarm fd g l h.1)

pub has_alarm-find_alarm :
    (fd : ℕ) (l : List AlarmEntry) → find_alarm fd l ≡ none → has_alarm fd l ≡ false
unfolding find_alarm
has_alarm-find_alarm fd [] h = refl
has_alarm-find_alarm fd (a ∷ l) h = ground (arith, has_alarm-find_alarm fd l)

DistinctAlarms-append :
    (l : List AlarmEntry) (a : AlarmEntry)
    → DistinctAlarms l
    → has_alarm a.alarm_id l ≡ false
    → DistinctAlarms (l ++ (a ∷ []))
DistinctAlarms-append [] a h out = (refl, tt)
DistinctAlarms-append (x ∷ l) a h out =
    (ground (arith, has_alarm-append x.alarm_id l a), DistinctAlarms-append l a h.1 (ground arith))

DistinctAlarms-remove_alarm :
    (fd : ℕ) (l : List AlarmEntry) → DistinctAlarms l → DistinctAlarms (remove_alarm fd l)
unfolding remove_alarm
DistinctAlarms-remove_alarm fd [] h = tt
DistinctAlarms-remove_alarm fd (a ∷ l) h =
    ground (arith, has_alarm-remove_alarm fd a.alarm_id l h.1, DistinctAlarms-remove_alarm fd l h.1)

-- The descriptor that the kernel gives next has no entry left in the scheduler's list, not even one
-- that is marked.
abbrev pub IsFresh : TimerAnswer → List SchedEntry → Type 0
IsFresh no_fd es = Unit {0}
IsFresh (not_set fd) es = Unit {0}
IsFresh (running fd) es = Absent fd es

set_with-Watched :
    (t : TimerAnswer) (ms : ℕ) (cb : AlarmCallback) (run_once : Bool) (c : Client)
    → Watched c
    → IsFresh t c.sched_entry
    → Watched (set_with t ms cb run_once c).1
unfolding set_with
set_with-Watched no_fd ms cb run_once c w fresh = w
set_with-Watched (not_set fd) ms cb run_once c w fresh = record {
  distinct_fds = w.distinct_fds;
  distinct_alarms = w.distinct_alarms;
  agree = w.agree;
}
set_with-Watched (running fd) ms cb run_once c w fresh = record {
  distinct_fds = DistinctFds-add_entry fd _ c.sched_entry w.distinct_fds fresh;
  distinct_alarms =
      DistinctAlarms-append c.alarm_entry _ w.distinct_alarms
        (sym (w.agree fd) ∙ watches-Absent fd c.sched_entry fresh);
  agree = λ g.
      watches-add_entry fd g c.sched_entry
      ∙ ap (λ b. if fd == g then true else b) (w.agree g)
      ∙ sym (has_alarm-append g c.alarm_entry _);
}

-- Setting an alarm keeps the agreement of alarms and scheduler, whatever the timer answers, if the
-- descriptor that the kernel gives is fresh.
pub alarm_set-Watched :
    (ms : ℕ) (cb : AlarmCallback) (run_once : Bool) (c : Client)
    → Watched c
    → IsFresh (take_timer c.os.timers).0 c.sched_entry
    → Watched (alarm_set ms cb run_once c).1
unfolding alarm_set
alarm_set-Watched ms cb run_once c w fresh =
    set_with-Watched (take_timer c.os.timers).0 ms cb run_once _
      (record {
        distinct_fds = w.distinct_fds;
        distinct_alarms = w.distinct_alarms;
        agree = w.agree;
      })
      fresh

cancel_found-Watched : (fd : ℕ) (c : Client) → Watched c → Watched (cancel_found fd c)
cancel_found-Watched fd c w = record {
  distinct_fds = DistinctFds-del_entry fd c.sched_entry w.distinct_fds;
  distinct_alarms = DistinctAlarms-remove_alarm fd c.alarm_entry w.distinct_alarms;
  agree = λ g.
      watches-del_entry fd g c.sched_entry w.distinct_fds
      ∙ ap (λ b. if fd == g then false else b) (w.agree g)
      ∙ sym (has_alarm-remove_alarm fd g c.alarm_entry w.distinct_alarms);
}

abbrev pub Cancelled : ℕ → Client → Client → Type 0
Cancelled id c c' =
    Watched c'
    × (watches id c'.sched_entry ≡ false)
    × ((g : ℕ) → g ≢ id → has_alarm g c'.alarm_entry ≡ has_alarm g c.alarm_entry)

cancel_found-Cancelled : (id : ℕ) (c : Client) → Watched c → Cancelled id c (cancel_found id c)
cancel_found-Cancelled id c w = (
  cancel_found-Watched id c w,
  ground (arith, watches-del_entry id id c.sched_entry w.distinct_fds),
  λ g ne. ground (arith, has_alarm-remove_alarm id g c.alarm_entry w.distinct_alarms),
)

cancel_by :
    (id : ℕ) (c : Client) (o : Option AlarmEntry)
    → Watched c
    → find_alarm id c.alarm_entry ≡ o
    → Cancelled id c (elim o [ none ↦ c | some _ ↦ cancel_found id c ])
cancel_by id c none w e = (w, w.agree id ∙ has_alarm-find_alarm id c.alarm_entry e, λ g ne. refl)
cancel_by id c (some a) w e = cancel_found-Cancelled id c w

-- Cancelling an alarm keeps the agreement of alarms and scheduler, whether the alarm exists or not.
-- Afterwards the scheduler does not watch it, and every other alarm is there as before.
pub alarm_cancel-Watched :
    (id : ℕ) (c : Client)
    → Watched c
    → let c' = alarm_cancel (some id) c in
      Watched c'
      × (watches id c'.sched_entry ≡ false)
      × ((g : ℕ) → g ≢ id → has_alarm g c'.alarm_entry ≡ has_alarm g c.alarm_entry)
unfolding alarm_cancel
alarm_cancel-Watched id c w = cancel_by id c (find_alarm id c.alarm_entry) w refl
