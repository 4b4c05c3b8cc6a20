-- ===== src/Telemetry.antt =====
-- atlas_client/src/telemetry/atlas_telemetry.c: the list of telemetry features, and pushing them.
-- The payload callbacks (the other files of that directory) are a parameter.
pub mod Alerts
pub mod Features
pub mod Payloads
use resfit.Prelude.{
  ℕ, ◌*◌, Bool, true, false, Option, none, some, List, [], ◌∷◌, ◌++◌, ◌==◌, if◌then◌else◌, Exec, ok,
  ◌>>=◌,
}
use resfit.Prelude.Memory.{Bytes}
use resfit.Prelude.Text.{str_eq, occurs_in}
use resfit.Status.{CoapResponse, CoapMethod}
use resfit.State.{AlarmCallback, CoapCallback, Payload, Feature, Client}
use resfit.Config.{coap_get_uri}
use resfit.Alarm.{alarm_set, alarm_cancel}
use resfit.CoapClient.{coap_request}

abbrev pub feature_timeout_ms : ℕ
feature_timeout_ms = 40000

abbrev pub feature : Bytes → Payload → Feature
feature path cb = record { uri_path = path; payload_cb = cb; push_id = none; threshold_id = none }

-- `atlas_telemetry_add`
unfoldable pub telemetry_add : (uri_path : Option Bytes) → (cb : Option Payload) → Client → Client
telemetry_add none cb c = c
telemetry_add (some path) none c = c
telemetry_add (some path) (some cb) c = record c { features = c.features ++ (feature path cb ∷ []) }

-- The first feature of a path.
unfoldable pub find_feature : Bytes → List Feature → Option Feature
find_feature path [] = none
find_feature path (p ∷ l) =
    let rest = find_feature path l in if str_eq p.uri_path path then some p else rest

unfoldable pub remove_feature : Bytes → List Feature → List Feature
remove_feature path [] = []
remove_feature path (p ∷ l) = if str_eq p.uri_path path then l else p ∷ remove_feature path l

-- `atlas_telemetry_del`
unfoldable pub telemetry_del : (uri_path : Option Bytes) → Client → Client
telemetry_del none c = c
telemetry_del (some path) c = record c { features = remove_feature path c.features }

-- The assignments to `push_id` and `threshold_id` of the first feature of a path.
unfoldable pub set_push_id : Bytes → Option ℕ → List Feature → List Feature
set_push_id path id [] = []
set_push_id path id (p ∷ l) =
    if str_eq p.uri_path path then record p { push_id = id } ∷ l else p ∷ set_push_id path id l

unfoldable pub set_threshold_id : Bytes → Option ℕ → List Feature → List Feature
set_threshold_id path id [] = []
set_threshold_id path id (p ∷ l) =
    if str_eq p.uri_path path
    then record p { threshold_id = id } ∷ l
    else p ∷ set_threshold_id path id l

abbrev pub id_is : ℕ → Option ℕ → Bool
id_is id none = false
id_is id (some n) = n == id

-- The first feature with an alarm for pushes, or for scans.
unfoldable pub find_push : ℕ → List Feature → Option Feature
find_push id [] = none
find_push id (p ∷ l) = let rest = find_push id l in if id_is id p.push_id then some p else rest

unfoldable pub find_scan : ℕ → List Feature → Option Feature
find_scan id [] = none
find_scan id (p ∷ l) = let rest = find_scan id l in if id_is id p.threshold_id then some p else rest

-- The first feature whose path occurs in a URI.
unfoldable pub find_in_uri : Bytes → List Feature → Option Feature
find_in_uri uri [] = none
find_in_uri uri (p ∷ l) =
    let rest = find_in_uri uri l in if occurs_in p.uri_path uri then some p else rest

-- The end of `atlas_telemetry_push`: an empty payload is not sent.
pub push_payload : Feature → Option Bytes → Client → Exec Client
push_payload p none c = ok c
push_payload p (some []) c = ok c
push_payload p (some (b ∷ bs)) c = do
  uri ← coap_get_uri c.settings p.uri_path
  ok ((coap_request uri CoapMethod.put (b ∷ bs) feature_timeout_ms CoapCallback.telemetry c).1)

-- The end of `atlas_telemetry_push_set` and of `atlas_telemetry_threshold_set`.
abbrev pub keep_push_id : Bytes → Option ℕ × Client → Client
keep_push_id path (id, c) = record c { features = set_push_id path id c.features }

abbrev pub keep_threshold_id : Bytes → Option ℕ × Client → Client
keep_threshold_id path (id, c) = record c { features = set_threshold_id path id c.features }

-- `atlas_telemetry_threshold_set`
unfoldable pub threshold_set : (uri_path : Option Bytes) → (scan_rate : ℕ) → Client → Client
threshold_set none scan_rate c = c
threshold_set (some path) scan_rate c =
    if scan_rate == 0 then c else elim (find_feature path c.features) [
      | none ↦ c
      | some p ↦ keep_threshold_id path (
          alarm_set (scan_rate * 1000) AlarmCallback.threshold_alert false
            (alarm_cancel p.threshold_id c))
    ]

-- `payload` calls the payload callback of a feature; it may use the alert's threshold.
module _ (payload : Payload → (use_threshold : Bool) → Client → Exec (Option Bytes)) where
  -- `atlas_telemetry_push`
  unfoldable pub push : Feature → (use_threshold : Bool) → Client → Exec Client
  unfolding push_payload
  push p use_threshold c =
      if c.registration.registered
      then (payload p.payload_cb use_threshold c >>= λ o. push_payload p o c)
      else ok c

  -- The loop of `atlas_telemetry_push_all`
  unfoldable pub push_each : List Feature → Client → Exec Client
  unfolding push
  push_each [] c = ok c
  push_each (p ∷ l) c = push p false c >>= push_each l

  -- `atlas_telemetry_push_all`
  unfoldable pub push_all : Client → Exec Client
  unfolding push_each
  push_all c = push_each c.features c

  push_found : Bool → Option Feature → Client → Exec Client
  unfolding push
  push_found use_threshold none c = ok c
  push_found use_threshold (some p) c = push p use_threshold c

  -- `push_alert_alarm_cb` and `threshold_alert_alarm_cb`
  unfoldable pub push_alert_alarm_cb : (alarm_id : ℕ) → Client → Exec Client
  unfolding push_found
  push_alert_alarm_cb id c = push_found false (find_push id c.features) c

  unfoldable pub threshold_alert_alarm_cb : (alarm_id : ℕ) → Client → Exec Client
  unfolding push_found
  threshold_alert_alarm_cb id c = push_found true (find_scan id c.features) c

  -- `telemetry_callback`
  unfoldable pub telemetry_callback : (uri : Bytes) → CoapResponse → Client → Exec Client
  unfolding push_found
  telemetry_callback uri CoapResponse.timeout c = push_found false (find_in_uri uri c.features) c
  telemetry_callback uri resp c = ok c

  -- `atlas_telemetry_push_set`
  unfoldable pub push_set : (uri_path : Option Bytes) → (push_rate : ℕ) → Client → Exec Client
  unfolding push
  push_set none push_rate c = ok c
  push_set (some path) push_rate c = elim (find_feature path c.features) [
    | none ↦ ok c
    | some p ↦
        if push_rate == 0
        then push p false c
        else ok (
            keep_push_id path (
              alarm_set (push_rate * 1000) AlarmCallback.push_alert false
                (alarm_cancel p.push_id c)))
  ]
