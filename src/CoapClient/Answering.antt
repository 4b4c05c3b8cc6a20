-- ===== src/CoapClient/Answering.antt =====
-- What an answer, a message that is none, and a timeout do to the list of requests.
use resfit.Prelude.{
  ℕ, ◌≡◌, ◌≢◌, refl, ap, ◌∙◌, true, false, Option, none, some, List, [], ◌∷◌, ◌++◌, arith, ◌==◌,
  Exec, ok, Option-cases, inl, inr, ==_iff, Bool-cases,
}
use resfit.Prelude.Memory.{Bytes}
use resfit.Status.{CoapResponse}
use resfit.State.{CoapCallback, Request, Client}
use resfit.Scheduler.{del_entry}
use resfit.Scheduler.Sweep.{DistinctFds, live, without, live-del_entry}
use resfit.Alarm.Watched.{has_alarm, DistinctAlarms}
use resfit.CoapClient.{
  Message, validate_token, find_session, find_timer, remove_timer, after_timeout, message_handler,
  request_alarm,
}

-- None of the requests has the descriptor or the context of the request.
abbrev pub Apart : Request → List Request → Type 0
Apart r [] = Unit {0}
Apart r (x ∷ l) = (x.coap_fd ≢ r.coap_fd) × (x.ctx ≢ r.ctx) × Apart r l

-- None of the requests has the alarm of the request.
abbrev pub OtherAlarms : Request → List Request → Type 0
OtherAlarms r [] = Unit {0}
OtherAlarms r (x ∷ l) = (x.alarm_id ≢ r.alarm_id) × OtherAlarms r l

find_timer-OtherAlarms :
    (r : Request) (pre l : List Request)
    → OtherAlarms r pre
    → find_timer r.alarm_id (pre ++ (r ∷ l)) ≡ some r
unfolding find_timer
find_timer-OtherAlarms r [] l h = ground arith
find_timer-OtherAlarms r (y ∷ pre) l h = ground (arith, find_timer-OtherAlarms r pre l h.1, h.0)

remove_timer-OtherAlarms :
    (r : Request) (pre l : List Request)
    → OtherAlarms r pre
    → remove_timer r.alarm_id (pre ++ (r ∷ l)) ≡ pre ++ l
unfolding remove_timer
remove_timer-OtherAlarms r [] l h = ground arith
remove_timer-OtherAlarms r (y ∷ pre) l h = ground (arith, remove_timer-OtherAlarms r pre l h.1, h.0)

wrong_token :
    (received : Option ℕ) (token : ℕ)
    → received ≢ some token
    → validate_token received token ≡ false
wrong_token none token h = refl
wrong_token (some t) token h = elim (Bool-cases (t == token)) [
  | inl same ↦ absurd (h (ap some ((==_iff t token).0 same)))
  | inr other ↦ other
]

module _ (run : CoapCallback → Bytes → CoapResponse → Option Bytes → Client → Exec Client) where
  -- A message with another token than the first request of its context and session, or without
  -- such a request, changes nothing.
  pub message_handler-ignores :
      (m : Message) (c : Client)
      → ((r : Request) → find_session m.ctx m.session c.req_entry ≡ some r → m.token ≢ some r.token)
      → message_handler run m c ≡ ok c
  unfolding message_handler
  message_handler-ignores m c h = elim (Option-cases (find_session m.ctx m.session c.req_entry)) [
    | inl missing ↦ rw (message_handler, missing)
    | inr (r, e) ↦ rw (message_handler, e, wrong_token m.token r.token (h r e))
  ]

-- What a message tells the callback of its request: a reset, the payload of a success, that the
-- request was not found, of an error of the client, or that the answer is unknown.
pub data Means (m : Message) : CoapResponse → Option Bytes → Type 0 where
  resets : m.is_rst ≡ true → Means m CoapResponse.reset none
  succeeds : m.is_rst ≡ false → m.code_class ≡ 2 → Means m CoapResponse.ok m.payload
  misses : m.is_rst ≡ false → m.code_class ≡ 4 → Means m CoapResponse.not_found none
  puzzles :
      m.is_rst ≡ false → m.code_class ≢ 2 → m.code_class ≢ 4 → Means m CoapResponse.unknown none

-- The callback of a request has run, with the requests that it added behind the others, and has
-- ended at `c`: no two entries of the scheduler and no two alarms have the same descriptor.
pub record Ran (c : Client) (l : List Request) : Type 0 where
  pub requests : c.req_entry ≡ l
  pub distinct_fds : DistinctFds c.sched_entry
  pub distinct_alarms : DistinctAlarms c.alarm_entry

-- The request is out of the list, the scheduler has no live entry for its descriptor and its alarm,
-- and the alarm is gone and its timer closed. The others are as the callback left them.
pub record Dropped (r : Request) (others : List Request) (c c' : Client) : Type 0 where
  pub requests : c'.req_entry ≡ others
  pub entries : live c'.sched_entry ≡ without r.alarm_id (without r.coap_fd (live c.sched_entry))
  pub no_alarm : has_alarm r.alarm_id c'.alarm_entry ≡ false
  pub other_alarms :
      (g : ℕ) → g ≢ r.alarm_id → has_alarm g c'.alarm_entry ≡ has_alarm g c.alarm_entry
  pub closed : c'.os.closed ≡ r.alarm_id ∷ c.os.closed
  pub sent : c'.os.sent ≡ c.os.sent
  pub registration : c'.registration ≡ c.registration

-- The request is out of the list, and the scheduler has no live entry for its descriptor.
pub record Expired (r : Request) (others : List Request) (c c' : Client) : Type 0 where
  pub requests : c'.req_entry ≡ others
  pub entries : live c'.sched_entry ≡ without r.coap_fd (live c.sched_entry)
  pub alarms : c'.alarm_entry ≡ c.alarm_entry
  pub os : c'.os ≡ c.os
  pub registration : c'.registration ≡ c.registration

module _ (run : CoapCallback → Bytes → CoapResponse → Option Bytes → Client → Exec Client) where
  -- The alarm of a request: its callback is told that the time is out. If it ends, having added
  -- requests behind the others, then the request is out of the list and its descriptor out of the
  -- scheduler, and all other requests and live entries, and the alarms, stay as the callback left
  -- them. No request before this one in the list has its alarm, and no two entries have one
  -- descriptor.
  pub request_alarm-timeout :
      (c c' : Client) (r : Request) (pre post l : List Request)
      → c.req_entry ≡ pre ++ (r ∷ post)
      → OtherAlarms r pre
      → run r.callback r.uri CoapResponse.timeout none c ≡ ok c'
      → c'.req_entry ≡ pre ++ (r ∷ (post ++ l))
      → DistinctFds c'.sched_entry
      → (c'' : Client) × (request_alarm run r.alarm_id c ≡ ok c'')
        × Expired r (pre ++ (post ++ l)) c' c''
  unfolding request_alarm after_timeout
  request_alarm-timeout c c' r pre post l e others ran grown distinct =
      let first : find_timer r.alarm_id c.req_entry ≡ some r =
        ap (find_timer r.alarm_id) e ∙ find_timer-OtherAlarms r pre post others in
      let here : find_timer r.alarm_id c'.req_entry ≡ some r =
        ap (find_timer r.alarm_id) grown ∙ find_timer-OtherAlarms r pre (post ++ l) others in
      (
        record c' {
          req_entry = remove_timer r.alarm_id c'.req_entry;
          sched_entry = del_entry r.coap_fd c'.sched_entry;
        },
        rw (request_alarm, first, ran, after_timeout, here),
        record {
          requests =
              ap (remove_timer r.alarm_id) grown
              ∙ remove_timer-OtherAlarms r pre (post ++ l) others;
          entries = live-del_entry r.coap_fd c'.sched_entry distinct;
          alarms = refl;
          os = refl;
          registration = refl;
        },
      )
