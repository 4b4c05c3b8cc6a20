-- ===== src/Telemetry/Payloads/Values.antt =====
-- The scan of the number of processes, and the threshold request without a threshold.
use resfit.Prelude.{
  ℕ, ◌≤◌, ◌<◌, ◌≡◌, refl, ap, ◌∙◌, Bool, true, false, Option, none, some, List, [], ◌∷◌, arith,
  length, length-append, ltb, if◌then◌else◌, ok, ub, ◌>>=◌, cond_true, cond_false, Bool-cases, ◌⊎◌,
  inl, inr,
}
use resfit.Prelude.Memory.{Bytes, u16}
use resfit.Prelude.Text.{print_u, length-decimal}
use resfit.Status.{CoapMethod}
use resfit.Command.Types
use resfit.Command.Frame.{Frame, frame, AllFrames, encode}
use resfit.Command.Sender.{send_batch-encode}
use resfit.State.{CoapCallback, Payload, Sysinfo, Feature, Client}
use resfit.Config.{uri_of}
use resfit.Config.Bounds.{coap_get_uri_fits}
use resfit.CoapClient.{coap_request}
use resfit.CoapClient.Requested.{Requested}
use resfit.CoapClient.Sending.{coap_request-Requested}
use resfit.Telemetry.{find_scan, push, push_payload, push_found, threshold_alert_alarm_cb}
use resfit.Telemetry.Alerts.{no_scan, threshold_result, threshold_cmd_parse}
use resfit.Telemetry.Alerts.Threshold.{scan_of, threshold_cmd_parse-encode}
use resfit.Telemetry.Payloads.{
  payload_frames, text_payload, procs_payload, payload, threshold_parsed, threshold_alert_procs_cb,
}

text_payload-encode :
    (type : ℕ) (n : ℕ) (c : Client)
    → type < 65536
    → length c.settings.identity ≤ 64
    → text_payload type (print_u n) c ≡ ok (some (encode (payload_frames type (print_u n) c)))
unfolding text_payload
text_payload-encode type n c t h =
    ap (λ m. m >>= λ b. ok (some b))
      (send_batch-encode (payload_frames type (print_u n) c)
        (
          record { type_fits = omega arith; value_fits = omega arith },
          (record { type_fits = t; value_fits = omega (arith, length-decimal 20 n) }, tt),
        )
        (omega (
          arith,
          length-append c.settings.identity (encode (frame type (print_u n) ∷ [])),
          length-append (print_u n) [],
          length-decimal 20 n,
        )))

-- The request that carries a value of a feature.
abbrev value_request : Feature → (type value : ℕ) → Client → Client
value_request p type value c =
    (coap_request (uri_of c.settings p.uri_path) CoapMethod.put
      (encode (payload_frames type (print_u value) c)) 40000 CoapCallback.telemetry c).1

push_value :
    (p : Feature) (type value : ℕ) (c : Client)
    → length c.settings.gw_hostname ≤ 128
    → length c.settings.gw_port ≤ 6
    → length p.uri_path ≤ 110
    → push_payload p (some (encode (payload_frames type (print_u value) c))) c
      ≡ ok (value_request p type value c)
unfolding push_payload
push_value p type value c h q l =
    ap
      (λ m. m >>= λ uri. ok (
        (coap_request uri CoapMethod.put (encode (payload_frames type (print_u value) c)) 40000
          CoapCallback.telemetry c).1))
      (coap_get_uri_fits c.settings p.uri_path h q l)

procs_value :
    (info : Sysinfo) (c : Client)
    → c.os.sysinfo ≡ some info
    → length c.settings.identity ≤ 64
    → payload Payload.procs true c ≡ (
        if ltb info.procs c.procs_threshold
        then ok none
        else ok
            (some (encode (payload_frames Types.telemetry_sysinfo_procs (print_u info.procs) c))))
unfolding payload procs_payload
procs_value info c e h =
    ap
      (λ o. elim o [
        | none ↦ ok none
        | some i ↦
            if ltb i.procs c.procs_threshold
            then ok none
            else text_payload Types.telemetry_sysinfo_procs (print_u i.procs) c
      ])
      e
    ∙ ap (λ m. if ltb info.procs c.procs_threshold then ok none else m)
        (text_payload-encode Types.telemetry_sysinfo_procs info.procs c (omega arith) h)

-- What the client does about the number of processes: nothing below the threshold, and otherwise one
-- PUT request with its identity and the number as a decimal text.
abbrev pub Scanned : Feature → ℕ → Client → Client → Type 0
Scanned p procs c c' =
    ((procs < c.procs_threshold) × (c' ≡ c))
    ⊎ ((c.procs_threshold ≤ procs)
        × Requested (uri_of c.settings p.uri_path) CoapMethod.put
            (encode (
              frame Types.identity c.settings.identity
              ∷ frame Types.telemetry_sysinfo_procs (print_u procs)
              ∷ []))
            40000 CoapCallback.telemetry c c')

scan_done :
    (p : Feature) (procs : ℕ) (c : Client)
    → (c' : Client) × ((if ltb procs c.procs_threshold
          then ok c
          else ok (value_request p Types.telemetry_sysinfo_procs procs c))
        ≡ ok c')
      × Scanned p procs c c'
scan_done p procs c = elim (Bool-cases (ltb procs c.procs_threshold)) [
  | inl less ↦ (c, cond_true _ _ less, inl (ground (arith, less), refl))
  | inr more ↦ (
    value_request p Types.telemetry_sysinfo_procs procs c,
    cond_false _ _ more,
    inr (ground (arith, more), coap_request-Requested _ _ _ _ _ c (omega arith)),
  )
]

-- When the scan alarm of the number of processes runs out at a registered client that `sysinfo`
-- answers, the client asks for one PUT request with its identity and the number as a decimal text, if
-- the number has reached the threshold; below the threshold it does nothing. If libcoap and the kernel
-- grant it, the request is sent and waits for its answer, and if not, nothing is left of it. The
-- identity, the hostname, the port and the path must fit 64, 128, six and 110 bytes.
pub threshold_alert_alarm_cb-procs :
    (id : ℕ) (p : Feature) (info : Sysinfo) (c : Client)
    → find_scan id c.features ≡ some p
    → p.payload_cb ≡ Payload.procs
    → c.registration.registered ≡ true
    → c.os.sysinfo ≡ some info
    → length c.settings.identity ≤ 64
    → length c.settings.gw_hostname ≤ 128
    → length c.settings.gw_port ≤ 6
    → length p.uri_path ≤ 110
    → (c' : Client) × (threshold_alert_alarm_cb payload id c ≡ ok c') × Scanned p info.procs c c'
unfolding threshold_alert_alarm_cb push_found push
threshold_alert_alarm_cb-procs id p info c found is_procs reg e i h q l =
    let (c', ends, scanned) = scan_done p info.procs c in
    (
      c',
      ap (λ o. push_found payload true o c) found
          ∙ cond_true _ _ reg
          ∙ ap (λ cb. payload cb true c >>= λ o. push_payload p o c) is_procs
          ∙ ap (λ m. m >>= λ o. push_payload p o c) (procs_value info c e i)
          ∙ either (ltb info.procs c.procs_threshold)
          ∙ ends,
      scanned,
    )
  where
    text : Option Bytes
    text = some (encode (payload_frames Types.telemetry_sysinfo_procs (print_u info.procs) c))

    either :
        (b : Bool)
        → ((if b then ok none else ok text) >>= λ o. push_payload p o c)
          ≡ (if b then ok c else ok (value_request p Types.telemetry_sysinfo_procs info.procs c))
    either true = unfold push_payload in refl
    either false = push_value p Types.telemetry_sysinfo_procs info.procs c h q l

-- A threshold request of one frame or more, in a buffer that fits 16 bits, with a scan rate and
-- without a text makes the client read through NULL.
pub threshold_alert_procs_cb-null :
    (strtol : Bytes → ℕ × Bool) (f : Frame) (fs : List Frame) (scan_rate : ℕ) (c : Client)
    → AllFrames (f ∷ fs)
    → length (encode (f ∷ fs)) < 65536
    → scan_of (f ∷ fs) no_scan ≡ record { scan_rate = some scan_rate; threshold = none }
    → threshold_alert_procs_cb strtol (some (encode (f ∷ fs))) (length (encode (f ∷ fs))) c ≡ ub
unfolding threshold_alert_procs_cb threshold_parsed
threshold_alert_procs_cb-null strtol f fs scan_rate c all fits e =
    let same : u16 (length (encode (f ∷ fs))) ≡ length (encode (f ∷ fs)) = omega arith in
    ap (λ n. threshold_cmd_parse (some (encode (f ∷ fs))) n >>= threshold_parsed strtol c) same
    ∙ ap (λ m. m >>= threshold_parsed strtol c) (threshold_cmd_parse-encode f fs all)
    ∙ ap (λ s. ok (threshold_result s) >>= threshold_parsed strtol c) e
