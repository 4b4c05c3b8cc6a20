-- ===== src/Register/KeepAlive.antt =====
-- When a failed keep-alive makes the client register again, and what an answer does to the count.
use resfit.Prelude.{
  ℕ, zero, suc, ◌+◌, ◌-◌, ◌*◌, ◌%◌, ◌<◌, ◌≡◌, ◌≢◌, inl, inr, refl, sym, ap, ◌∙◌, true, false,
  Option, none, some, [], ◌∷◌, arith, ◌==◌, ltb, length, if◌then◌else◌, Exec, ok, ◌>>=◌, cond_true,
  cond_false, ==_iff, Bool-cases,
}
use resfit.Prelude.Memory.{Bytes, load_u16_first}
use resfit.Status.{CoapResponse}
use resfit.State.{Client}
use resfit.Alarm.Watched.{Watched}
use resfit.Register.Requests.{Configured}
use resfit.Register.{
  set_ka_count, register_again, keepalive_err, keepalive_payload, keepalive_callback,
  keepalive_count,
}
use resfit.Register.Again.{RegistersAgain, register_again-RegistersAgain}

-- As many requests time out, one after the other.
unfoldable pub fail_times : ℕ → Client → Exec Client
fail_times zero c = ok c
fail_times (suc n) c = keepalive_callback CoapResponse.timeout none c >>= fail_times n

-- How many failures a count stands for: a count of 0 wraps around.
abbrev pub left : ℕ → ℕ
left count = if count == 0 then 256 else count

err_waits :
    (c : Client)
    → 1 < left c.registration.ka_count
    → c.registration.ka_count < 256
    → keepalive_err c ≡ ok (set_ka_count ((c.registration.ka_count + 255) % 256) c)
unfolding keepalive_err
err_waits c more small =
    let again : ((c.registration.ka_count + 255) % 256 == 0) ≡ false = ground arith in
    cond_false _ _ again

err_registers :
    (c : Client) → c.registration.ka_count ≡ 1 → keepalive_err c ≡ register_again (set_ka_count 0 c)
unfolding keepalive_err
err_registers c one =
    let none_left : (c.registration.ka_count + 255) % 256 ≡ 0 = omega arith in
    let again : ((c.registration.ka_count + 255) % 256 == 0) ≡ true = ground arith in
    cond_true _ _ again ∙ ap (λ n. register_again (set_ka_count n c)) none_left

fail_times_waits :
    (n count : ℕ) (c : Client)
    → c.registration.ka_count ≡ count
    → n < left count
    → count < 256
    → fail_times n c ≡ ok (set_ka_count ((count + (256 - n)) % 256) c)
unfolding fail_times keepalive_callback
fail_times_waits zero count c e few small =
    let same : c.registration.ka_count ≡ (count + 256) % 256 = omega arith in
    ap (λ m. ok (set_ka_count m c)) same
fail_times_waits (suc n) count c e few small =
    let next : ℕ = (c.registration.ka_count + 255) % 256 in
    let fewer : n < left next = ground arith in
    let same : (next + (256 - n)) % 256 ≡ (count + (256 - suc n)) % 256 = ground arith in
    ap (λ m. m >>= fail_times n) (err_waits c (ground arith) (omega arith))
    ∙ fail_times_waits n next (set_ka_count next c) refl fewer (omega arith)
    ∙ ap (λ m. ok (set_ka_count m c)) same

-- Keep-alives that time out only lower the count, a uint8_t, which wraps around at 0: with a count
-- of `count` left, every run of fewer failures than that, or than 256 if the count is 0, leaves
-- the client as it is but for the count. One more failure behind the longest such run makes a client
-- with configured texts, whose alarms and scheduler agree, register again: it is not registered and
-- its count is 0, the alarm of the keep-alives is gone and no other, and it makes one POST request to
-- gateway/register with its identity and its address, which waits for its answer if libcoap and the
-- kernel grant it, and leaves nothing behind if not.
pub fail_times_lem :
    (n : ℕ) (c : Client)
    → c.registration.ka_count < 256
    → n < left c.registration.ka_count
    → Configured c.settings
    → Watched c
    → (fail_times n c ≡ ok (set_ka_count ((c.registration.ka_count + (256 - n)) % 256) c))
      × (n + 1 ≡ left c.registration.ka_count
          → (c' : Client) × (keepalive_callback CoapResponse.timeout none
                (set_ka_count ((c.registration.ka_count + (256 - n)) % 256) c)
              ≡ ok c')
            × RegistersAgain c c')
unfolding keepalive_callback
fail_times_lem n c small few h w = (
  fail_times_waits n c.registration.ka_count c refl few small,
  λ last.
      let (c', e, again) = register_again-RegistersAgain c h w in
      (
        c',
        err_registers (set_ka_count ((c.registration.ka_count + (256 - n)) % 256) c) (ground arith)
            ∙ e,
        again,
      ),
)

-- A gateway that does not know the client, or does not accept it, makes the client register again
-- at once, whatever the count.
pub keepalive_callback-unknown :
    (payload : Option Bytes) (c : Client)
    → (keepalive_callback CoapResponse.not_found payload c ≡ register_again (set_ka_count 0 c))
      × (keepalive_callback CoapResponse.not_acceptable_here payload c
          ≡ register_again (set_ka_count 0 c))
unfolding keepalive_callback
keepalive_callback-unknown payload c =
    (err_registers (set_ka_count 1 c) refl, err_registers (set_ka_count 1 c) refl)

token_read :
    (a b : ℕ) (rest : Bytes) (c : Client)
    → keepalive_payload (a ∷ b ∷ rest) c ≡ (
        if c.registration.ka_token == a + b * 256
        then ok (set_ka_count keepalive_count c)
        else keepalive_err c)
unfolding keepalive_payload
token_read a b rest c =
    let long : ltb (length (a ∷ b ∷ rest)) 2 ≡ false = ground arith in
    cond_false _ _ long
    ∙ ap
        (λ m. m >>= λ token.
          if c.registration.ka_token == token
          then ok (set_ka_count keepalive_count c)
          else keepalive_err c)
        (load_u16_first a b rest)

-- An answer to a keep-alive counts as a success exactly if its payload starts with the token that
-- was sent last; then the count is full again and nothing else changes. Any other payload, or none,
-- is treated like a timeout.
pub keepalive_callback-token :
    (a b : ℕ) (rest : Bytes) (c : Client)
    → (a + b * 256 ≡ c.registration.ka_token
        → keepalive_callback CoapResponse.ok (some (a ∷ b ∷ rest)) c ≡ ok (set_ka_count 3 c))
      × (a + b * 256 ≢ c.registration.ka_token
          → keepalive_callback CoapResponse.ok (some (a ∷ b ∷ rest)) c
            ≡ keepalive_callback CoapResponse.timeout none c)
      × (keepalive_callback CoapResponse.ok (some (a ∷ [])) c
          ≡ keepalive_callback CoapResponse.timeout none c)
      × (keepalive_callback CoapResponse.ok (some []) c
          ≡ keepalive_callback CoapResponse.timeout none c)
      × (keepalive_callback CoapResponse.ok none c ≡ keepalive_callback CoapResponse.timeout none c)
unfolding keepalive_callback
keepalive_callback-token a b rest c = (
  λ same. token_read a b rest c ∙ cond_true _ _ ((==_iff _ _).1 (sym same)),
  λ other. token_read a b rest c ∙ cond_false _ _ (differ other),
  unfold keepalive_payload in refl,
  unfold keepalive_payload in refl,
  refl,
)
  where
    differ :
        a + b * 256 ≢ c.registration.ka_token → (c.registration.ka_token == a + b * 256) ≡ false
    differ other = elim (Bool-cases (c.registration.ka_token == a + b * 256)) [
      | inl same ↦ absurd (other (sym ((==_iff _ _).0 same)))
      | inr e ↦ e
    ]
