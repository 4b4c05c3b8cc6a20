-- ===== src/Telemetry/Alerts/Push.antt =====
-- What `atlas_alert_push_cmd_parse` reads from a request.
use resfit.Prelude.{
  ℕ, ◌+◌, ◌*◌, ◌≡◌, ap, Bool, true, false, Option, none, some, List, [], ◌∷◌, length, ◌==◌,
  if◌then◌else◌, Exec, ok, ◌>>=◌,
}
use resfit.Prelude.Memory.{Bytes, ntohs, load_u16_first}
use resfit.Status.{Status}
use resfit.Command.Types
use resfit.Command.Frame.{Frame}
use resfit.Command.Walk.{views, run_body}
use resfit.Telemetry.Alerts.{read_rate, push_body}

-- The number that a value of two bytes stands for, in network order.
unfoldable pub rate : Bytes → Option ℕ
rate (hi ∷ lo ∷ []) = some (ntohs (hi + lo * 256))
rate _ = none

abbrev pub or_else : Option ℕ → Option ℕ → Option ℕ
or_else none o = o
or_else (some n) o = some n

-- The first push rate among the frames.
unfoldable pub first_push_rate : List Frame → Option ℕ
first_push_rate [] = none
first_push_rate (f ∷ fs) =
    if f.type == Types.telemetry_alert_ext_push_rate
    then or_else (rate f.value) (first_push_rate fs)
    else first_push_rate fs

pub read_rate_two :
    (a b n : ℕ) (q : Bytes)
    → read_rate (record { type = n; length = 2; value = a ∷ b ∷ q }) ≡ ok (ntohs (a + b * 256))
read_rate_two a b n q = ap (λ m. m >>= λ x. ok (ntohs x)) (load_u16_first a b q)

-- What the body returns for a rate that it finds, or does not find.
abbrev leaves : Option ℕ → Option ℕ × Bool
leaves none = (none, false)
leaves (some n) = (some n, true)

abbrev go_on : List Frame → Option ℕ × Bool → Exec (Option ℕ)
go_on fs (o, true) = ok o
go_on fs (o, false) = run_body push_body (views fs) o
