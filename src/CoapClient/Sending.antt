-- ===== src/CoapClient/Sending.antt =====
-- What a request that is sent, or that cannot be sent, leaves behind.
use resfit.Prelude.{ℕ, ◌≡◌, refl, ap, ◌⊎◌, inl, inr, true, none, some, List, [], ◌∷◌, arith, ◌<◌}
use resfit.Prelude.Memory.{Bytes, u16}
use resfit.Status.{Status, CoapMethod}
use resfit.State.{
  AlarmCallback, CoapCallback, CoapAnswer, bad_uri, unresolved, no_context, no_session, no_pdu,
  no_token, made, TimerAnswer, no_fd, not_set, running, Client,
}
use resfit.Scheduler.{add_entry}
use resfit.Alarm.{take_timer, set_with, alarm_set, time_spec}
use resfit.CoapClient.{
  next, chain_request, add_request, send_if_ok, request_with, take_coap, coap_request,
}
use resfit.CoapClient.Requested.{Granted, Made, Failed, Requested}

abbrev pub Outcome :
    Bytes → CoapMethod → Bytes → ℕ → CoapCallback → Client → Status × Client → Type 0
Outcome uri method payload timeout cb c r =
    ((r.0 ≡ Status.ok) × Made uri method payload timeout cb c r.1)
    ⊎ ((r.0 ≡ Status.general_err) × Failed c r.1)

timer_head :
    (l : List TimerAnswer) (id : ℕ)
    → (take_timer l).0 ≡ running id
    → (ts : List TimerAnswer) × (l ≡ running id ∷ ts)
timer_head [] id e = cc
timer_head (t ∷ ts) id e = (ts, ap (λ t. t ∷ ts) e)

coap_head :
    (l : List CoapAnswer) (ctx session fd : ℕ)
    → (take_coap l).0 ≡ made ctx session (some fd)
    → (k : List CoapAnswer) × (l ≡ made ctx session (some fd) ∷ k)
coap_head [] ctx session fd e = cc
coap_head (a ∷ l) ctx session fd e = (l, ap (λ a. a ∷ l) e)

coap_taken :
    (c : Client) (ctx session fd id : ℕ)
    → Granted c ctx session fd id
    → (take_coap c.os.coaps).0 ≡ made ctx session (some fd)
coap_taken c ctx session fd id ((l, e), t) = ap (λ l. (take_coap l).0) e

timer_taken :
    (c : Client) (ctx session fd id : ℕ)
    → Granted c ctx session fd id
    → (take_timer c.os.timers).0 ≡ running id
timer_taken c ctx session fd id (h, (ts, e)) = ap (λ l. (take_timer l).0) e

made-Outcome :
    (t : TimerAnswer) (ts : List TimerAnswer) (l : List CoapAnswer) (uri : Bytes)
    (method : CoapMethod) (payload : Bytes) (timeout : ℕ) (cb : CoapCallback) (c : Client)
    (ctx session fd : ℕ)
    → (take_coap c.os.coaps).0 ≡ made ctx session (some fd)
    → (take_timer c.os.timers).0 ≡ t
    → Outcome uri method payload timeout cb c (
        send_if_ok
          (chain_request fd ctx session uri c.next_token cb (
            set_with t timeout AlarmCallback.request_timeout true (record c {
              next_token = next c.next_token;
              os = record (c.os) { timers = ts; coaps = l };
            })))
          (record { uri = uri; method = method; payload = payload; token = c.next_token }))
unfolding chain_request set_with add_entry time_spec
made-Outcome no_fd ts l uri method payload timeout cb c ctx session fd h e = inr (
  refl,
  (
    (λ x s d id g. absurd (cc (e, timer_taken c x s d id g))),
    record {
      requests = refl;
      alarms = refl;
      entries = refl;
      nothing_sent = refl;
      nothing_armed = refl;
      same_settings = refl;
      same_features = refl;
      same_registration = refl;
      same_connector = refl;
    },
  ),
)
made-Outcome (not_set g) ts l uri method payload timeout cb c ctx session fd h e = inr (
  refl,
  (
    (λ x s d id g. absurd (cc (e, timer_taken c x s d id g))),
    record {
      requests = refl;
      alarms = refl;
      entries = refl;
      nothing_sent = refl;
      nothing_armed = refl;
      same_settings = refl;
      same_features = refl;
      same_registration = refl;
      same_connector = refl;
    },
  ),
)
made-Outcome (running g) ts l uri method payload timeout cb c ctx session fd h e = inl (
  refl,
  (
    ctx,
    session,
    fd,
    g,
    (coap_head c.os.coaps ctx session fd h, timer_head c.os.timers g e),
    record {
      requests = refl;
      alarms = refl;
      timer = refl;
      entries = refl;
      sent = refl;
      token = refl;
      same_settings = refl;
      same_features = refl;
      same_registration = refl;
      same_connector = refl;
    },
  ),
)

request_with-Outcome :
    (a : CoapAnswer) (l : List CoapAnswer) (uri : Bytes) (method : CoapMethod) (payload : Bytes)
    (timeout : ℕ) (cb : CoapCallback) (c : Client)
    → (take_coap c.os.coaps).0 ≡ a
    → Outcome uri method payload timeout cb c (
        request_with a uri method payload timeout cb
          (record c { os = record (c.os) { coaps = l } }))
unfolding request_with add_request alarm_set
request_with-Outcome (made ctx session (some fd)) l uri method payload timeout cb c e =
    made-Outcome (take_timer c.os.timers).0 (take_timer c.os.timers).1 l uri method payload timeout
      cb c ctx session fd e refl
request_with-Outcome (made ctx session none) l uri method payload timeout cb c e = inr (
  refl,
  (
    (λ x s d id g. absurd (cc (e, coap_taken c x s d id g))),
    record {
      requests = refl;
      alarms = refl;
      entries = refl;
      nothing_sent = refl;
      nothing_armed = refl;
      same_settings = refl;
      same_features = refl;
      same_registration = refl;
      same_connector = refl;
    },
  ),
)
request_with-Outcome bad_uri l uri method payload timeout cb c e = inr (
  refl,
  (
    (λ x s d id g. absurd (cc (e, coap_taken c x s d id g))),
    record {
      requests = refl;
      alarms = refl;
      entries = refl;
      nothing_sent = refl;
      nothing_armed = refl;
      same_settings = refl;
      same_features = refl;
      same_registration = refl;
      same_connector = refl;
    },
  ),
)
request_with-Outcome unresolved l uri method payload timeout cb c e = inr (
  refl,
  (
    (λ x s d id g. absurd (cc (e, coap_taken c x s d id g))),
    record {
      requests = refl;
      alarms = refl;
      entries = refl;
      nothing_sent = refl;
      nothing_armed = refl;
      same_settings = refl;
      same_features = refl;
      same_registration = refl;
      same_connector = refl;
    },
  ),
)
request_with-Outcome no_context l uri method payload timeout cb c e = inr (
  refl,
  (
    (λ x s d id g. absurd (cc (e, coap_taken c x s d id g))),
    record {
      requests = refl;
      alarms = refl;
      entries = refl;
      nothing_sent = refl;
      nothing_armed = refl;
      same_settings = refl;
      same_features = refl;
      same_registration = refl;
      same_connector = refl;
    },
  ),
)
request_with-Outcome no_session l uri method payload timeout cb c e = inr (
  refl,
  (
    (λ x s d id g. absurd (cc (e, coap_taken c x s d id g))),
    record {
      requests = refl;
      alarms = refl;
      entries = refl;
      nothing_sent = refl;
      nothing_armed = refl;
      same_settings = refl;
      same_features = refl;
      same_registration = refl;
      same_connector = refl;
    },
  ),
)
request_with-Outcome no_pdu l uri method payload timeout cb c e = inr (
  refl,
  (
    (λ x s d id g. absurd (cc (e, coap_taken c x s d id g))),
    record {
      requests = refl;
      alarms = refl;
      entries = refl;
      nothing_sent = refl;
      nothing_armed = refl;
      same_settings = refl;
      same_features = refl;
      same_registration = refl;
      same_connector = refl;
    },
  ),
)
request_with-Outcome no_token l uri method payload timeout cb c e = inr (
  refl,
  (
    (λ x s d id g. absurd (cc (e, coap_taken c x s d id g))),
    record {
      requests = refl;
      alarms = refl;
      entries = refl;
      nothing_sent = refl;
      nothing_armed = refl;
      same_settings = refl;
      same_features = refl;
      same_registration = refl;
      same_connector = refl;
    },
  ),
)

-- A request with a timeout that fits 16 bits is granted if libcoap makes it, up to the descriptor of
-- its context, and the kernel gives it a timer. Then the status is fine and the request waits for its
-- answer: it is the last in the list, under the next token, with an alarm that runs once after the
-- timeout and an entry of the scheduler for its context, and it was handed to libcoap. If it is not
-- granted, the status is a general error, nothing is sent and the client's lists are as before.
pub coap_request_lem :
    (uri : Bytes) (method : CoapMethod) (payload : Bytes) (timeout : ℕ) (cb : CoapCallback)
    (c : Client)
    → timeout < 65536
    → Outcome uri method payload timeout cb c (coap_request uri method payload timeout cb c)
unfolding coap_request
coap_request_lem uri method payload timeout cb c h =
    rw ((let e : u16 timeout ≡ timeout = omega arith in e)) (
      request_with-Outcome (take_coap c.os.coaps).0 (take_coap c.os.coaps).1 uri method payload
        timeout cb c refl)

-- The same of a caller that does not look at the status.
pub coap_request-Requested :
    (uri : Bytes) (method : CoapMethod) (payload : Bytes) (timeout : ℕ) (cb : CoapCallback)
    (c : Client)
    → timeout < 65536
    → Requested uri method payload timeout cb c (coap_request uri method payload timeout cb c).1
coap_request-Requested uri method payload timeout cb c h =
    elim (coap_request_lem uri method payload timeout cb c h) [
      | inl (status, waits) ↦ inl waits
      | inr (status, left) ↦ inr left
    ]
