-- ===== src/Telemetry/Alerts/Threshold.antt =====
-- What `atlas_alert_threshold_cmd_parse` reads from a request.
use resfit.Prelude.{
  ℕ, ◌+◌, ◌*◌, ◌≡◌, inl, inr, refl, sym, ap, ◌∙◌, Bool, true, false, ◌&&◌, Option, none, some, List,
  [], ◌∷◌, ◌++◌, arith, length, ◌==◌, ltb, if◌then◌else◌, Exec, ok, ◌>>=◌, Bool-cases, cond_true,
  cond_false,
}
use resfit.Prelude.Memory.{Bytes, ntohs, read_at-append}
use resfit.Status.{Status}
use resfit.Command.{new}
use resfit.Command.Types
use resfit.Command.Frame.{Frame, frame, encode, AllFrames}
use resfit.Command.Walk.{views, run_body, for_each_cmd-views}
use resfit.Command.Accept.{set_raw-encode}
use resfit.Telemetry.Alerts.{
  Scan, no_scan, threshold_body, threshold_result, threshold_read, threshold_cmd_parse,
}
use resfit.Telemetry.Alerts.Push.{rate, read_rate_two}

-- A scan rate and a text that are found take the place of earlier ones.
abbrev pub with_rate : Option ℕ → Scan → Scan
with_rate none s = s
with_rate (some n) s = record s { scan_rate = some n }

abbrev pub with_text : Bytes → Scan → Scan
with_text [] s = s
with_text (a ∷ v) s = record s { threshold = some (a ∷ v) }

-- What one frame adds.
unfoldable pub scan_frame : Frame → Scan → Scan
scan_frame f s =
    if f.type == Types.telemetry_alert_int_scan_rate
    then with_rate (rate f.value) s
    else if f.type == Types.telemetry_alert_threshold
    then with_text f.value s
    else s

-- The last scan rate and the last text among the frames.
unfoldable pub scan_of : List Frame → Scan → Scan
scan_of [] s = s
scan_of (f ∷ fs) s = scan_of fs (scan_frame f s)

-- The three branches of the body.
body_skips :
    (t n : ℕ) (v : Bytes) (s : Scan)
    → (t == Types.telemetry_alert_int_scan_rate && n == 2) ≡ false
    → (t == Types.telemetry_alert_threshold && ltb 0 n) ≡ false
    → threshold_body (record { type = t; length = n; value = v }) s ≡ ok (s, false)
unfolding threshold_body
body_skips t n v s no_rate no_text = cond_false _ _ no_rate ∙ cond_false _ _ no_text

body_rate :
    (t a b : ℕ) (q : Bytes) (s : Scan)
    → (t == Types.telemetry_alert_int_scan_rate) ≡ true
    → threshold_body (record { type = t; length = 2; value = a ∷ b ∷ q }) s
      ≡ ok (record s { scan_rate = some (ntohs (a + b * 256)) }, false)
unfolding threshold_body
body_rate t a b q s e =
    let both : (t == Types.telemetry_alert_int_scan_rate && 2 == 2) ≡ true = ground arith in
    cond_true _ _ both
    ∙ ap (λ m. m >>= λ n. ok (record s { scan_rate = some n }, false)) (read_rate_two a b t q)

body_text :
    (t : ℕ) (a : ℕ) (v q : Bytes) (s : Scan)
    → (t == Types.telemetry_alert_int_scan_rate) ≡ false
    → (t == Types.telemetry_alert_threshold) ≡ true
    → threshold_body (record { type = t; length = length (a ∷ v); value = (a ∷ v) ++ q }) s
      ≡ ok (record s { threshold = some (a ∷ v) }, false)
unfolding threshold_body
body_text t a v q s e h =
    let no_rate : (t == Types.telemetry_alert_int_scan_rate && length (a ∷ v) == 2) ≡ false =
      ground arith in
    let text : (t == Types.telemetry_alert_threshold && ltb 0 (length (a ∷ v))) ≡ true =
      ground arith in
    cond_false _ _ no_rate
    ∙ cond_true _ _ text
    ∙ ap (λ m. m >>= λ x. ok (record s { threshold = some x }, false)) (read_at-append [] (a ∷ v) q)

not_both :
    (t : ℕ)
    → (t == Types.telemetry_alert_int_scan_rate) ≡ true
    → (t == Types.telemetry_alert_threshold) ≡ false
not_both t e = ground arith

at_rate :
    (t : ℕ) (v q : Bytes) (s : Scan)
    → (t == Types.telemetry_alert_int_scan_rate) ≡ true
    → threshold_body (record { type = t; length = length v; value = v ++ q }) s
      ≡ ok (with_rate (rate v) s, false)
unfolding rate
at_rate t [] q s e = body_skips t 0 q s (ground arith) (ground (arith, not_both t e))
at_rate t (a ∷ []) q s e = body_skips t 1 (a ∷ q) s (ground arith) (ground (arith, not_both t e))
at_rate t (a ∷ b ∷ []) q s e = body_rate t a b q s e
at_rate t (a ∷ b ∷ c ∷ v) q s e =
    body_skips t (length (a ∷ b ∷ c ∷ v)) (a ∷ b ∷ c ∷ v ++ q) s (ground arith)
      (ground (arith, not_both t e))

at_text :
    (t : ℕ) (v q : Bytes) (s : Scan)
    → (t == Types.telemetry_alert_int_scan_rate) ≡ false
    → (t == Types.telemetry_alert_threshold) ≡ true
    → threshold_body (record { type = t; length = length v; value = v ++ q }) s
      ≡ ok (with_text v s, false)
at_text t [] q s e h = body_skips t 0 q s (ground arith) (ground arith)
at_text t (a ∷ v) q s e h = body_text t a v q s e h

body_at :
    (t : ℕ) (v q : Bytes) (s : Scan)
    → threshold_body (record { type = t; length = length v; value = v ++ q }) s
      ≡ ok (scan_frame (frame t v) s, false)
unfolding scan_frame
body_at t v q s = elim (Bool-cases (t == Types.telemetry_alert_int_scan_rate)) [
  | inl r ↦ at_rate t v q s r ∙ sym (ap (λ s. ok (s, false)) (cond_true _ _ r))
  | inr n ↦ elim (Bool-cases (t == Types.telemetry_alert_threshold)) [
    | inl h ↦
        at_text t v q s n h ∙ sym (ap (λ s. ok (s, false)) (cond_false _ _ n ∙ cond_true _ _ h))
    | inr k ↦
        body_skips t (length v) (v ++ q) s (ground arith) (ground arith)
        ∙ sym (ap (λ s. ok (s, false)) (cond_false _ _ n ∙ cond_false _ _ k))
  ]
]

abbrev go_on : List Frame → Scan × Bool → Exec Scan
go_on fs (s, true) = ok s
go_on fs (s, false) = run_body threshold_body (views fs) s

run_body-threshold :
    (fs : List Frame) (s : Scan) → run_body threshold_body (views fs) s ≡ ok (scan_of fs s)
unfolding run_body scan_of
run_body-threshold [] s = refl
run_body-threshold (f ∷ fs) s =
    ap (λ m. m >>= go_on fs) (body_at f.type f.value (encode fs) s)
    ∙ run_body-threshold fs (scan_frame f s)

-- On the bytes of one frame or more, the parser gives what the frames say.
pub threshold_cmd_parse-encode :
    (f : Frame) (fs : List Frame)
    → AllFrames (f ∷ fs)
    → threshold_cmd_parse (some (encode (f ∷ fs))) (length (encode (f ∷ fs)))
      ≡ ok (threshold_result (scan_of (f ∷ fs) no_scan))
unfolding threshold_cmd_parse threshold_read
threshold_cmd_parse-encode f fs all =
    let some_bytes : (length (encode (f ∷ fs)) == 0) ≡ false = ground arith in
    cond_false _ _ some_bytes
    ∙ ap (λ m. m >>= threshold_read) (set_raw-encode new f fs all)
    ∙ ap (λ m. m >>= λ s. ok (threshold_result s))
        (for_each_cmd-views threshold_body f fs no_scan all ∙ run_body-threshold (f ∷ fs) no_scan)
