-- ===== src/Execute/Batches.antt =====
-- What a batch of commands to execute does to the client.
use resfit.Prelude.{
  ℕ, ◌≡◌, ◌⊎◌, inl, inr, refl, sym, ap, ◌∙◌, Bool, true, false, Option, List, [], ◌∷◌, ◌++◌,
  append_assoc, arith, length, length-append, ◌==◌, if◌then◌else◌, ok, ◌>>=◌, cond_true, subst,
}
use resfit.Prelude.Memory.{Bytes}
use resfit.Status.{Status, CoapResponse}
use resfit.Command.Types
use resfit.Command.Frame.{Frame}
use resfit.State.{
  AlarmCallback, AlarmEntry, TimerAnswer, no_fd, not_set, running, Client, SchedCallback,
}
use resfit.Alarm.{take_timer, set_with, alarm, time_spec}
use resfit.Execute.{mark_progress, execution_parse, execute_command_cb, respond, timeout_ms}
use resfit.Scheduler.{add_entry}

-- The flag and the alarm that a command sets, with the answers of the timers still to come: a timer
-- that runs adds an alarm, which runs once after ten milliseconds.
unfoldable pub due : AlarmCallback → List TimerAnswer → Client → Client
due cb [] c = record c { os = record (c.os) { timers = [] } }
due cb (no_fd ∷ ts) c = record c { os = record (c.os) { timers = ts } }
due cb (not_set fd ∷ ts) c = record c {
  os = record (c.os) { timers = ts; closed = fd ∷ c.os.closed };
}
due cb (running fd ∷ ts) c = record c {
  cmd_in_progress = true;
  alarm_entry = c.alarm_entry ++ (record { alarm_id = fd; callback = cb; run_once = true } ∷ []);
  sched_entry =
      c.sched_entry
      ++ (record { fd = fd; callback = SchedCallback.alarm_trigger; dirty = false } ∷ []);
  os = record (c.os) {
    timers = ts;
    armed =
        (fd, record { interval_sec = 0; interval_nsec = 0; value_sec = 0; value_nsec = 10000000 })
        ∷ c.os.armed;
  };
}

due-set_with :
    (cb : AlarmCallback) (l : List TimerAnswer) (c : Client)
    → mark_progress (
        set_with
          (take_timer l).0
          timeout_ms
          cb
          true
          (record c { os = record (c.os) { timers = (take_timer l).1 } }))
      ≡ due cb l c
unfolding due set_with time_spec add_entry
due-set_with cb [] c = refl
due-set_with cb (no_fd ∷ ts) c = refl
due-set_with cb (not_set fd ∷ ts) c = refl
due-set_with cb (running fd ∷ ts) c = refl

-- The commands of a list of frames, carried out one after the other.
unfoldable pub obey : List Frame → Client → Client
obey [] c = c
obey (f ∷ fs) c = obey fs (
    if f.type == Types.device_restart
    then due AlarmCallback.restart c.os.timers c
    else if f.type == Types.device_shutdown
    then due AlarmCallback.shutdown c.os.timers c
    else c)

-- What has happened since the client was idle: no alarm was added and nothing is in progress, or at
-- least one alarm was added and a command is in progress.
abbrev pub Progress : Client → Client → Type 0
Progress c c' =
    ((c'.cmd_in_progress ≡ false) × (c'.alarm_entry ≡ c.alarm_entry))
    ⊎ ((c'.cmd_in_progress ≡ true)
        × ((a : AlarmEntry) × (l : List AlarmEntry) × (c'.alarm_entry ≡ c.alarm_entry ++ (a ∷ l))))

step_with :
    (t : TimerAnswer) (cb : AlarmCallback) (c d d' : Client)
    → Progress c d
    → d'.cmd_in_progress ≡ d.cmd_in_progress
    → d'.alarm_entry ≡ d.alarm_entry
    → Progress c (mark_progress (set_with t timeout_ms cb true d'))
unfolding set_with
step_with no_fd cb c d d' (inl (p, q)) e g = inl (e ∙ p, g ∙ q)
step_with no_fd cb c d d' (inr (p, (a, l, q))) e g = inr (e ∙ p, (a, l, g ∙ q))
step_with (not_set fd) cb c d d' (inl (p, q)) e g = inl (e ∙ p, g ∙ q)
step_with (not_set fd) cb c d d' (inr (p, (a, l, q))) e g = inr (e ∙ p, (a, l, g ∙ q))
step_with (running fd) cb c d d' (inl (p, q)) e g =
    inr (refl, (alarm fd cb true, [], ap (λ l. l ++ (alarm fd cb true ∷ [])) (g ∙ q)))
step_with (running fd) cb c d d' (inr (p, (a, l, q))) e g = inr (
  refl,
  (
    a,
    l ++ (alarm fd cb true ∷ []),
    ap (λ l. l ++ (alarm fd cb true ∷ [])) (g ∙ q)
        ∙ append_assoc c.alarm_entry (a ∷ l) (alarm fd cb true ∷ []),
  ),
)

due-Progress :
    (cb : AlarmCallback) (c d : Client) → Progress c d → Progress c (due cb d.os.timers d)
due-Progress cb c d h =
    subst (Progress c) (due-set_with cb d.os.timers d)
      (step_with (take_timer d.os.timers).0 cb c d _ h refl refl)

obey-Progress : (fs : List Frame) (c d : Client) → Progress c d → Progress c (obey fs d)
unfolding obey
obey-Progress [] c d h = h
obey-Progress (f ∷ fs) c d h = obey-Progress fs c _ (
    either (f.type == Types.device_restart) _ _ (due-Progress AlarmCallback.restart c d h)
      (either (f.type == Types.device_shutdown) _ _ (due-Progress AlarmCallback.shutdown c d h) h))
  where
    either :
        (b : Bool) (x y : Client) → Progress c x → Progress c y → Progress c (if b then x else y)
    either true x y p q = p
    either false x y p q = q

-- Whatever batch of frames an idle client has accepted, if one of its commands set an alarm, then
-- every later request, of whatever bytes, is answered as unknown and changes nothing.
pub execute_command_cb-defers :
    (fs : List Frame) (c : Client) (a : AlarmEntry) (l : List AlarmEntry) (buf : Option Bytes)
    (buf_len : ℕ)
    → c.cmd_in_progress ≡ false
    → (obey fs c).alarm_entry ≡ c.alarm_entry ++ (a ∷ l)
    → execute_command_cb buf buf_len (obey fs c) ≡ ok (CoapResponse.unknown, obey fs c)
unfolding execute_command_cb execution_parse
execute_command_cb-defers fs c a l buf buf_len idle grown =
    elim (obey-Progress fs c c (inl (idle, refl))) [
      | inl (p, same) ↦
          absurd (omega (arith, ap length (sym same ∙ grown), length-append c.alarm_entry (a ∷ l)))
      | inr (p, more) ↦ ap (λ m. m >>= respond) (cond_true _ _ p)
    ]
