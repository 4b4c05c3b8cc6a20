-- ===== src/Register/Again.antt =====
-- What a client does that registers again: it quits, and asks for a registration.
use resfit.Prelude.{ℕ, ◌≡◌, ◌≢◌, refl, sym, false, Option, none, some, [], ◌∷◌, arith, ok, subst}
use resfit.Prelude.Text.{codes}
use resfit.Status.{CoapMethod}
use resfit.Command.Types
use resfit.Command.Frame.{frame, encode}
use resfit.State.{AlarmEntry, CoapCallback, Client}
use resfit.Config.{uri_of, get_local_ip_port, ip_port_text}
use resfit.Alarm.{find_alarm, cancel_found, alarm_cancel}
use resfit.Alarm.Watched.{
  watches, has_alarm, has_alarm-find_alarm, has_alarm-remove_alarm, Watched, Cancelled,
  alarm_cancel-Watched,
}
use resfit.CoapClient.Requested.{Requested}
use resfit.CoapClient.Sending.{coap_request-Requested}
use resfit.Register.Requests.{Configured, send_register_command_lem}
use resfit.Register.{set_ka_count, register_again, send_register_command}

-- The alarm of the keep-alives is gone, and the others are as before.
abbrev pub Off : Option ℕ → Client → Client → Type 0
Off none c d = (d.alarm_entry ≡ c.alarm_entry) × (d.sched_entry ≡ c.sched_entry)
Off (some id) c d =
    (has_alarm id d.alarm_entry ≡ false)
    × (watches id d.sched_entry ≡ false)
    × ((g : ℕ) → g ≢ id → has_alarm g d.alarm_entry ≡ has_alarm g c.alarm_entry)

-- The client is not registered and knows no alarm for keep-alives.
pub record Quits (c d : Client) : Type 0 where
  pub not_registered : d.registration.registered ≡ false
  pub no_alarm : d.registration.ka_alarm_id ≡ none
  pub no_count : d.registration.ka_count ≡ 0
  pub same_token : d.registration.ka_token ≡ c.registration.ka_token
  pub alarms : Off c.registration.ka_alarm_id c d
  pub requests : d.req_entry ≡ c.req_entry
  pub same_settings : d.settings ≡ c.settings
  pub next_token : d.next_token ≡ c.next_token
  pub nothing_sent : d.os.sent ≡ c.os.sent
  pub coaps : d.os.coaps ≡ c.os.coaps
  pub timers : d.os.timers ≡ c.os.timers

-- It quits, and then makes one POST request to gateway/register with its identity and its address.
abbrev pub RegistersAgain : Client → Client → Type 0
RegistersAgain c c' =
    (d : Client) × Quits c d
    × Requested (uri_of d.settings (codes "gateway/register")) CoapMethod.post
        (encode (
          frame Types.register d.settings.identity
          ∷ frame Types.ip_port (ip_port_text (get_local_ip_port d.settings))
          ∷ []))
        5000 CoapCallback.registered d c'

registers :
    (c d : Client)
    → Configured c.settings
    → Quits c d
    → (c' : Client) × (send_register_command d ≡ ok c') × RegistersAgain c c'
registers c d h q = (
  _,
  send_register_command_lem d (subst Configured (sym q.same_settings) h),
  (d, q, coap_request-Requested _ _ _ _ _ d (omega arith)),
)

-- The client that is about to register again.
abbrev unregistered : Client → Client
unregistered c = record c {
  registration = record (c.registration) { registered = false; ka_count = 0 };
}

abbrev without_alarm : Client → Client
without_alarm d = record d { registration = record (d.registration) { ka_alarm_id = none } }

Quits-from :
    (c : Client) (id : ℕ) (o : Option AlarmEntry)
    → c.registration.ka_alarm_id ≡ some id
    → Cancelled id
        (unregistered c)
        (elim o [ none ↦ unregistered c | some _ ↦ cancel_found id (unregistered c) ])
    → Watched c
    → find_alarm id c.alarm_entry ≡ o
    → Quits c (
        without_alarm
          (elim o [ none ↦ unregistered c | some _ ↦ cancel_found id (unregistered c) ]))
Quits-from c id none e off w f = record {
  not_registered = refl;
  no_alarm = refl;
  no_count = refl;
  same_token = refl;
  alarms =
      subst (λ a. Off a c (without_alarm (unregistered c))) (sym e)
        (has_alarm-find_alarm id c.alarm_entry f, off.1, off.2);
  requests = refl;
  same_settings = refl;
  next_token = refl;
  nothing_sent = refl;
  coaps = refl;
  timers = refl;
}
Quits-from c id (some a) e off w f = record {
  not_registered = refl;
  no_alarm = refl;
  no_count = refl;
  same_token = refl;
  alarms =
      subst (λ a. Off a c (without_alarm (cancel_found id (unregistered c)))) (sym e)
        (
          ground (arith, has_alarm-remove_alarm id id c.alarm_entry w.distinct_alarms),
          off.1,
          off.2,
        );
  requests = refl;
  same_settings = refl;
  next_token = refl;
  nothing_sent = refl;
  coaps = refl;
  timers = refl;
}

Quits-alarm_cancel :
    (c : Client) (a : Option ℕ)
    → c.registration.ka_alarm_id ≡ a
    → Watched c
    → Quits c (without_alarm (alarm_cancel a (unregistered c)))
unfolding alarm_cancel
Quits-alarm_cancel c none e w = record {
  not_registered = refl;
  no_alarm = refl;
  no_count = refl;
  same_token = refl;
  alarms = subst (λ a. Off a c (without_alarm (unregistered c))) (sym e) (refl, refl);
  requests = refl;
  same_settings = refl;
  next_token = refl;
  nothing_sent = refl;
  coaps = refl;
  timers = refl;
}
Quits-alarm_cancel c (some id) e w =
    Quits-from c id (find_alarm id c.alarm_entry) e
      (alarm_cancel-Watched id (unregistered c) (record {
        distinct_fds = w.distinct_fds;
        distinct_alarms = w.distinct_alarms;
        agree = w.agree;
      }))
      w refl

pub register_again-RegistersAgain :
    (c : Client)
    → Configured c.settings
    → Watched c
    → (c' : Client) × (register_again (set_ka_count 0 c) ≡ ok c') × RegistersAgain c c'
unfolding register_again
register_again-RegistersAgain c h w =
    registers c (without_alarm (alarm_cancel c.registration.ka_alarm_id (unregistered c))) h
      (Quits-alarm_cancel c c.registration.ka_alarm_id refl w)
