-- ===== src/DataPlane/Feedback.antt =====
-- What `atlas_reputation_feedback` sends for a list of scores, and for one with a score that is too
-- high.
use resfit.Prelude.{
  ◌+◌, ◌≤◌, ◌<◌, ◌≡◌, ◌⊎◌, inl, inr, refl, ap, ◌∙◌, some, List, [], ◌∷◌, ◌++◌, map, arith, length,
  length-append, ltb, lt→ltb, le→ltb_false, cond_true, cond_false, Bool-cases, ok, ◌>>=◌,
}
use resfit.Prelude.Memory.{Bytes, htons, host_bytes}
use resfit.Status.{Status}
use resfit.Command.{new}
use resfit.Command.Types
use resfit.Command.Frame.{frame, encode}
use resfit.Command.Sender.{send_batch, send_batch-encode}
use resfit.DataPlane.{
  SensorFeedback, feedback_frames, feedback_command, send_feedbacks, reputation_feedback,
}

-- Both scores are allowed, and the identity fits its array.
pub record IsAllowed (f : SensorFeedback) : Type 0 where
  pub short_identity : length f.identity < 64
  pub sensor_allowed : f.sensor_score ≤ 100
  pub time_allowed : f.time_score ≤ 100

abbrev pub AllAllowed : List SensorFeedback → Type 0
AllAllowed [] = Unit {0}
AllAllowed (f ∷ fs) = IsAllowed f × AllAllowed fs

-- The message of one element: the commands of its feedback inside one command.
abbrev pub message_of : SensorFeedback → Bytes
message_of f = encode (frame Types.data_plane_feedback (encode (feedback_frames f)) ∷ [])

length-feedback :
    (f : SensorFeedback) → length (encode (feedback_frames f)) ≡ 22 + length f.identity
length-feedback f = omega (
  arith,
  length-append f.identity (
      encode (
        frame Types.data_plane_feedback_sensor_type (host_bytes (htons f.sensor_type))
        ∷ (frame Types.data_plane_feedback_sensor (host_bytes (htons f.sensor_score))
            ∷ (frame Types.data_plane_feedback_response_time (host_bytes (htons f.time_score))
                ∷ [])))),
)

feedback_command-encode :
    (f : SensorFeedback) → IsAllowed f → feedback_command f ≡ ok (message_of f)
unfolding feedback_command
feedback_command-encode f h =
    ap (λ m. m >>= λ b. send_batch (frame Types.data_plane_feedback b ∷ []) (some new))
      (send_batch-encode (feedback_frames f)
        (
          record { type_fits = omega arith; value_fits = omega (arith, h.short_identity) },
          (
            record { type_fits = omega arith; value_fits = omega arith },
            (
              record { type_fits = omega arith; value_fits = omega arith },
              (record { type_fits = omega arith; value_fits = omega arith }, tt),
            ),
          ),
        )
        (omega (arith, length-feedback f, h.short_identity)))
    ∙ send_batch-encode (frame Types.data_plane_feedback (encode (feedback_frames f)) ∷ [])
        (
          record {
            type_fits = omega arith;
            value_fits = omega (arith, length-feedback f, h.short_identity);
          },
          tt,
        )
        (omega (
          arith,
          length-feedback f,
          h.short_identity,
          length-append (encode (feedback_frames f)) [],
        ))

abbrev with_message : Bytes → Status × List Bytes → Status × List Bytes
with_message m (status, l) = (status, m ∷ l)

send_feedbacks_allowed :
    (f : SensorFeedback) (fs : List SensorFeedback) {r : Status × List Bytes}
    → IsAllowed f
    → send_feedbacks fs ≡ ok r
    → send_feedbacks (f ∷ fs) ≡ ok (with_message (message_of f) r)
unfolding send_feedbacks
send_feedbacks_allowed f fs h rest =
    cond_false _ _ (le→ltb_false 100 f.sensor_score h.sensor_allowed)
    ∙ cond_false _ _ (le→ltb_false 100 f.time_score h.time_allowed)
    ∙ ap (λ m. m >>= λ b. send_feedbacks fs >>= λ r. ok (with_message b r))
        (feedback_command-encode f h)
    ∙ ap (λ m. m >>= λ r. ok (with_message (message_of f) r)) rest

send_feedbacks_all :
    (fs : List SensorFeedback)
    → AllAllowed fs
    → send_feedbacks fs ≡ ok (Status.ok, map message_of fs)
unfolding send_feedbacks
send_feedbacks_all [] all = refl
send_feedbacks_all (f ∷ fs) all = send_feedbacks_allowed f fs all.0 (send_feedbacks_all fs all.1)

send_feedbacks_stops :
    (bad : SensorFeedback) (post : List SensorFeedback)
    → (100 < bad.sensor_score) ⊎ (100 < bad.time_score)
    → send_feedbacks (bad ∷ post) ≡ ok (Status.invalid_input, [])
unfolding send_feedbacks
send_feedbacks_stops bad post (inl h) = cond_true _ _ (lt→ltb 100 bad.sensor_score h)
send_feedbacks_stops bad post (inr h) = elim (Bool-cases (ltb 100 bad.sensor_score)) [
  | inl sensor ↦ cond_true _ _ sensor
  | inr allowed ↦ cond_false _ _ allowed ∙ cond_true _ _ (lt→ltb 100 bad.time_score h)
]

send_feedbacks_part :
    (pre post : List SensorFeedback) (bad : SensorFeedback)
    → AllAllowed pre
    → (100 < bad.sensor_score) ⊎ (100 < bad.time_score)
    → send_feedbacks (pre ++ (bad ∷ post)) ≡ ok (Status.invalid_input, map message_of pre)
send_feedbacks_part [] post bad all h = send_feedbacks_stops bad post h
send_feedbacks_part (f ∷ pre) post bad all h =
    send_feedbacks_allowed f (pre ++ (bad ∷ post)) all.0 (send_feedbacks_part pre post bad all.1 h)

-- A list of feedback whose scores are all allowed, with identities that fit their array, is sent
-- element by element, in order, each in one message. If a later element has a score above 100, the
-- call reports an invalid input, but the allowed elements in front of it have been sent.
pub reputation_feedback_lem :
    (f : SensorFeedback) (fs post : List SensorFeedback) (bad : SensorFeedback)
    → AllAllowed (f ∷ fs)
    → (100 < bad.sensor_score) ⊎ (100 < bad.time_score)
    → (reputation_feedback (some (f ∷ fs)) ≡ ok (Status.ok, map message_of (f ∷ fs)))
      × (reputation_feedback (some (f ∷ (fs ++ (bad ∷ post))))
          ≡ ok (Status.invalid_input, map message_of (f ∷ fs)))
unfolding reputation_feedback
reputation_feedback_lem f fs post bad all h =
    (send_feedbacks_all (f ∷ fs) all, send_feedbacks_part (f ∷ fs) post bad all h)
