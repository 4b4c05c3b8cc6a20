-- ===== src/Tests/Requests.antt =====
-- Requests that are made, answered and that time out, at a concrete client.
use resfit.Prelude.{◌≡◌, refl, arith, true, false, Option, none, some, [], ◌∷◌, Exec, ok}
use resfit.Prelude.Memory.{Bytes}
use resfit.Prelude.Text.{codes}
use resfit.Status.{CoapResponse, CoapMethod}
use resfit.State.{CoapCallback, AlarmCallback, Client}
use resfit.Scheduler.{add_entry}
use resfit.Scheduler.Sweep.{DistinctFds}
use resfit.Alarm.{set_with, alarm_set}
use resfit.CoapClient.{Message, coap_request, request_alarm}
use resfit.CoapClient.Sending.{Outcome, coap_request_lem}
use resfit.CoapClient.Answering.{Expired, request_alarm-timeout}
use resfit.Register.{reg_callback}
use resfit.Tests.{pending, client}

-- The callback of the registration; pushing the telemetry is left out.
abbrev registering : CoapCallback → Bytes → CoapResponse → Option Bytes → Client → Exec Client
registering cb uri resp payload c = reg_callback (λ c. ok c) resp c

-- An answer to the waiting request: the gateway does not know it.
abbrev answered : Message
answered = record {
  ctx = 1;
  session = 1;
  token = some 41;
  is_rst = false;
  code_class = 4;
  payload = none;
}

coap_request_lem_example :
    Outcome
      (codes "coaps://gw.example:10100/gateway/policy")
      CoapMethod.put
      (1 ∷ [])
      5000
      CoapCallback.policy
      client
      (coap_request
        (codes "coaps://gw.example:10100/gateway/policy")
        CoapMethod.put
        (1 ∷ [])
        5000
        CoapCallback.policy
        client)
coap_request_lem_example =
    coap_request_lem (codes "coaps://gw.example:10100/gateway/policy") CoapMethod.put (1 ∷ []) 5000
      CoapCallback.policy client (omega arith)

-- The client while the request is marked, and once its callback has set an alarm, to register again.
abbrev answering : Client
answering = record client { req_entry = record pending { dirty = true } ∷ [] }

abbrev alarmed : Client → Client
alarmed c = (alarm_set 5000 AlarmCallback.register true c).1

distinct_entries : DistinctFds (alarmed client).sched_entry
unfolding alarm_set set_with add_entry
distinct_entries = omega arith

request_alarm-timeout_example :
    (c : Client) × (request_alarm registering 9 client ≡ ok c)
    × Expired pending [] (alarmed client) c
unfolding reg_callback alarm_set set_with
request_alarm-timeout_example =
    request_alarm-timeout registering client (alarmed client) pending [] [] [] refl tt refl refl
      distinct_entries
