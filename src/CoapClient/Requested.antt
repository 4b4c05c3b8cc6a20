-- ===== src/CoapClient/Requested.antt =====
-- What a request to the gateway comes to, as its caller sees it: it waits, or nothing is left of it.
use resfit.Prelude.{ℕ, ◌+◌, ◌*◌, ◌/◌, ◌%◌, ◌≡◌, ◌⊎◌, true, false, some, List, [], ◌∷◌, ◌++◌}
use resfit.Prelude.Memory.{Bytes}
use resfit.Status.{CoapMethod}
use resfit.State.{
  SchedCallback, AlarmCallback, CoapCallback, CoapAnswer, made, TimerAnswer, running, Client,
}

-- libcoap makes the request, with these numbers for its context, its session and the descriptor of
-- the context, and the kernel gives it a timer.
abbrev pub Granted : Client → (ctx session fd alarm_id : ℕ) → Type 0
Granted c ctx session fd alarm_id =
    ((l : List CoapAnswer) × (c.os.coaps ≡ made ctx session (some fd) ∷ l))
    × ((ts : List TimerAnswer) × (c.os.timers ≡ running alarm_id ∷ ts))

-- Nothing of the client has changed but what libcoap and the kernel answered, and the token.
pub record Untouched (c c' : Client) : Type 0 where
  pub requests : c'.req_entry ≡ c.req_entry
  pub alarms : c'.alarm_entry ≡ c.alarm_entry
  pub entries : c'.sched_entry ≡ c.sched_entry
  pub nothing_sent : c'.os.sent ≡ c.os.sent
  pub nothing_armed : c'.os.armed ≡ c.os.armed
  pub same_settings : c'.settings ≡ c.settings
  pub same_features : c'.features ≡ c.features
  pub same_registration : c'.registration ≡ c.registration
  pub same_connector : c'.connector ≡ c.connector

-- The request waits for its answer: it is the last of the list, under the token that was next, with
-- an alarm that runs once and is set to the timeout, an entry of the scheduler for the descriptor
-- of its context, and it was handed to libcoap.
pub record Waits (uri : Bytes) (method : CoapMethod) (payload : Bytes) (timeout : ℕ)
    (cb : CoapCallback) (c c' : Client) (ctx session fd id : ℕ) : Type 0 where
  pub requests :
      c'.req_entry
      ≡ c.req_entry
        ++ (record {
          coap_fd = fd;
          alarm_id = id;
          ctx = ctx;
          session = session;
          uri = uri;
          token = c.next_token;
          callback = cb;
          dirty = false;
        }
            ∷ [])
  pub alarms :
      c'.alarm_entry
      ≡ c.alarm_entry
        ++ (record { alarm_id = id; callback = AlarmCallback.request_timeout; run_once = true }
            ∷ [])
  pub timer :
      c'.os.armed
      ≡ (
        id,
        record {
          interval_sec = 0;
          interval_nsec = 0;
          value_sec = timeout / 1000;
          value_nsec = timeout % 1000 * 1000000;
        },
      )
        ∷ c.os.armed
  pub entries :
      c'.sched_entry
      ≡ c.sched_entry
        ++ (record { fd = id; callback = SchedCallback.alarm_trigger; dirty = false } ∷ [])
        ++ (record { fd = fd; callback = SchedCallback.coap_client; dirty = false } ∷ [])
  pub sent :
      c'.os.sent
      ≡ (record { uri = uri; method = method; payload = payload; token = c.next_token }) ∷ c.os.sent
  pub token : c'.next_token ≡ (c.next_token + 1) % 4294967296
  pub same_settings : c'.settings ≡ c.settings
  pub same_features : c'.features ≡ c.features
  pub same_registration : c'.registration ≡ c.registration
  pub same_connector : c'.connector ≡ c.connector

-- The request is granted, and waits with the numbers that it was granted.
abbrev pub Made : Bytes → CoapMethod → Bytes → ℕ → CoapCallback → Client → Client → Type 0
Made uri method payload timeout cb c c' =
    (ctx : ℕ) × (session : ℕ) × (fd : ℕ) × (id : ℕ) × Granted c ctx session fd id
    × Waits uri method payload timeout cb c c' ctx session fd id

-- It is not granted, and leaves nothing behind.
abbrev pub Failed : Client → Client → Type 0
Failed c c' = ((ctx session fd id : ℕ) → ¬ Granted c ctx session fd id) × Untouched c c'

-- What becomes of a request whose status nobody looks at.
abbrev pub Requested : Bytes → CoapMethod → Bytes → ℕ → CoapCallback → Client → Client → Type 0
Requested uri method payload timeout cb c c' = Made uri method payload timeout cb c c' ⊎ Failed c c'
