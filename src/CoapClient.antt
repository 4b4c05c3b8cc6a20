-- ===== src/CoapClient.antt =====
-- atlas_client/src/coap/atlas_coap_client.c: the requests that wait for an answer. Each has a
-- context of libcoap, whose descriptor the scheduler watches, and an alarm for its timeout. libcoap
-- enters by its answers (`CoapAnswer`) and by the messages that it delivers.
pub mod Requested
pub mod Sending
pub mod Answering
use resfit.Prelude.{
  ℕ, ◌+◌, ◌%◌, Bool, true, false, not, ◌&&◌, Option, none, some, List, [], ◌∷◌, ◌++◌, ◌==◌,
  if◌then◌else◌, Exec, ok, ub, ◌>>=◌,
}
use resfit.Prelude.Memory.{Bytes, u16}
use resfit.Status.{Status, CoapResponse, CoapMethod}
use resfit.State.{
  SchedCallback, AlarmCallback, CoapCallback, Request, CoapAnswer, bad_uri, unresolved, no_context,
  no_session, no_pdu, no_token, made, Sent, Client,
}
use resfit.Scheduler.{add_entry, del_entry}
use resfit.Alarm.{alarm_set, alarm_cancel}

-- `get_new_token`: the token of a uint32_t counter
abbrev pub next : ℕ → ℕ
next token = (token + 1) % 4294967296

abbrev pub request :
    (fd alarm_id ctx session : ℕ) → (uri : Bytes) → (token : ℕ) → CoapCallback → Request
request fd alarm_id ctx session uri token cb = record {
  coap_fd = fd;
  alarm_id = alarm_id;
  ctx = ctx;
  session = session;
  uri = uri;
  token = token;
  callback = cb;
  dirty = false;
}

-- The end of `add_request`, with the id that `atlas_alarm_set` returned.
unfoldable pub chain_request :
    (fd ctx session : ℕ)
    → (uri : Bytes) → (token : ℕ) → CoapCallback
    → Option ℕ × Client
    → Status × Client
chain_request fd ctx session uri token cb (none, c) = (Status.general_err, c)
chain_request fd ctx session uri token cb (some alarm_id, c) = (
  Status.ok,
  record c {
    sched_entry = add_entry (some fd) (some SchedCallback.coap_client) c.sched_entry;
    req_entry = c.req_entry ++ (request fd alarm_id ctx session uri token cb ∷ []);
  },
)

-- `add_request`
unfoldable pub add_request :
    (ctx session : ℕ)
    → (fd : Option ℕ) → (uri : Bytes) → (token timeout : ℕ) → CoapCallback
    → Client
    → Status × Client
unfolding chain_request
add_request ctx session none uri token timeout cb c = (Status.general_err, c)
add_request ctx session (some fd) uri token timeout cb c =
    chain_request fd ctx session uri token cb
      (alarm_set timeout AlarmCallback.request_timeout true c)

-- `coap_send`, if the request is in the list
abbrev pub send_if_ok : Status × Client → Sent → Status × Client
send_if_ok (Status.ok, c) m = (Status.ok, record c { os = record (c.os) { sent = m ∷ c.os.sent } })
send_if_ok (status, c) m = (status, c)

unfoldable pub request_with :
    CoapAnswer
    → (uri : Bytes) → CoapMethod
    → (payload : Bytes) → (timeout : ℕ) → CoapCallback
    → Client
    → Status × Client
unfolding add_request
request_with bad_uri uri method payload timeout cb c = (Status.general_err, c)
request_with unresolved uri method payload timeout cb c = (Status.general_err, c)
request_with no_context uri method payload timeout cb c = (Status.general_err, c)
request_with no_session uri method payload timeout cb c = (Status.general_err, c)
request_with no_pdu uri method payload timeout cb c = (Status.general_err, c)
request_with no_token uri method payload timeout cb c =
    (Status.general_err, record c { next_token = next c.next_token })
request_with (made ctx session fd) uri method payload timeout cb c =
    send_if_ok
      (add_request ctx session fd uri c.next_token timeout cb
        (record c { next_token = next c.next_token }))
      (record { uri = uri; method = method; payload = payload; token = c.next_token })

-- The answer of libcoap to the next request.
abbrev pub take_coap : List CoapAnswer → CoapAnswer × List CoapAnswer
take_coap [] = (no_context, [])
take_coap (a ∷ l) = (a, l)

-- `atlas_coap_client_request`; `timeout` is a uint16_t
unfoldable pub coap_request :
    (uri : Bytes)
    → CoapMethod
    → (payload : Bytes) → (timeout : ℕ) → CoapCallback
    → Client
    → Status × Client
unfolding request_with
coap_request uri method payload timeout cb c =
    let (a, l) = take_coap c.os.coaps in
    request_with a uri method payload (u16 timeout) cb
      (record c { os = record (c.os) { coaps = l } })

-- A message that libcoap delivers. The token is none if its length is not that of a uint32_t.
pub record Message : Type 0 where
  pub ctx : ℕ
  pub session : ℕ
  pub token : Option ℕ
  pub is_rst : Bool
  pub code_class : ℕ
  pub payload : Option Bytes

-- `validate_token`
abbrev pub validate_token : (received : Option ℕ) → (token : ℕ) → Bool
validate_token none token = false
validate_token (some t) token = t == token

-- The first request of the context and the session.
unfoldable pub find_session : (ctx session : ℕ) → List Request → Option Request
find_session ctx session [] = none
find_session ctx session (r ∷ l) =
    let rest = find_session ctx session l in
    if r.ctx == ctx && r.session == session then some r else rest

-- `ent->dirty = 1` of that request
unfoldable pub mark_session : (ctx session : ℕ) → List Request → List Request
mark_session ctx session [] = []
mark_session ctx session (r ∷ l) =
    if r.ctx == ctx && r.session == session
    then record r { dirty = true } ∷ l
    else r ∷ mark_session ctx session l

-- What the callback of a request is told of a message with the right token.
abbrev pub response : Message → CoapResponse × Option Bytes
response m =
    if m.is_rst
    then (CoapResponse.reset, none)
    else if m.code_class == 2
    then (CoapResponse.ok, m.payload)
    else if m.code_class == 4
    then (CoapResponse.not_found, none)
    else (CoapResponse.unknown, none)

unfoldable pub find_fd : (fd : ℕ) → List Request → Option Request
find_fd fd [] = none
find_fd fd (r ∷ l) = let rest = find_fd fd l in if r.coap_fd == fd then some r else rest

unfoldable pub remove_fd : (fd : ℕ) → List Request → List Request
remove_fd fd [] = []
remove_fd fd (r ∷ l) = if r.coap_fd == fd then l else r ∷ remove_fd fd l

unfoldable pub find_timer : (alarm_id : ℕ) → List Request → Option Request
find_timer id [] = none
find_timer id (r ∷ l) = let rest = find_timer id l in if r.alarm_id == id then some r else rest

unfoldable pub remove_timer : (alarm_id : ℕ) → List Request → List Request
remove_timer id [] = []
remove_timer id (r ∷ l) = if r.alarm_id == id then l else r ∷ remove_timer id l

-- The removal of a request that was answered.
abbrev pub drop_answered : Request → Client → Client
drop_answered r c = alarm_cancel (some r.alarm_id) (record c {
  req_entry = remove_fd r.coap_fd c.req_entry;
  sched_entry = del_entry r.coap_fd c.sched_entry;
})

-- The end of `coap_client_sched_callback`, behind `coap_io_process`. The callbacks only append to
-- the list, so the request is still the first with its descriptor.
pub after_io : (fd : ℕ) → Client → Exec Client
after_io fd c = elim (find_fd fd c.req_entry) [
  | none ↦ ub
  | some r ↦ ok (if r.dirty then drop_answered r c else c)
]

-- The end of `request_alarm_cb`, behind the callback: the alarm itself runs once and is cancelled by
-- its trigger.
pub after_timeout : (alarm_id : ℕ) → Client → Exec Client
after_timeout id c = elim (find_timer id c.req_entry) [
  | none ↦ ub
  | some r ↦ ok (record c {
    req_entry = remove_timer id c.req_entry;
    sched_entry = del_entry r.coap_fd c.sched_entry;
  })
]

-- The functions that call the callback of a request; `run` does that.
module _
    (run : CoapCallback → (uri : Bytes) → CoapResponse → Option Bytes → Client → Exec Client) where
  -- The end of `message_handler`, at a request whose token is that of the message.
  pub answer : Message → Request → Client → Exec Client
  answer m r c =
      run r.callback r.uri (response m).0 (response m).1
        (record c { req_entry = mark_session m.ctx m.session c.req_entry })

  -- `message_handler`
  unfoldable pub message_handler : Message → Client → Exec Client
  message_handler m c = elim (find_session m.ctx m.session c.req_entry) [
    | none ↦ ok c
    | some r ↦ if validate_token m.token r.token then answer m r c else ok c
  ]

  -- `coap_io_process`: the messages that libcoap has for the context
  unfoldable pub io_process : List Message → Client → Exec Client
  io_process [] c = ok c
  io_process (m ∷ ms) c = message_handler m c >>= io_process ms

  -- `coap_client_sched_callback`
  unfoldable pub sched_callback : (fd : ℕ) → List Message → Client → Exec Client
  unfolding io_process after_io
  sched_callback fd ms c = elim (find_fd fd c.req_entry) [
    | none ↦ ok c
    | some r ↦ io_process ms c >>= after_io fd
  ]

  -- `request_alarm_cb`
  unfoldable pub request_alarm : (alarm_id : ℕ) → Client → Exec Client
  unfolding after_timeout
  request_alarm id c = elim (find_timer id c.req_entry) [
    | none ↦ ok c
    | some r ↦ run r.callback r.uri CoapResponse.timeout none c >>= after_timeout id
  ]
