-- ===== src/Gateway/Endpoints/Registering.antt =====
-- The client's requests at the end-points of the gateway: registration and keep-alive.
use resfit.Prelude.{
  ℕ, ◌<◌, ◌≡◌, ◌≢◌, refl, sym, ap, ◌∙◌, Bool, true, false, ◌||◌, none, some, List, [], ◌∷◌, arith,
  length, ◌==◌, if◌then◌else◌, cond_true, cond_false, Exec, ◌>>=◌, subst,
}
use resfit.Prelude.Memory.{Bytes, u16}
use resfit.Prelude.Text.{str_eq, str_eq_self, text_differs}
use resfit.Command.Frame.{Frame, frame, AllFrames, encode}
use resfit.Gateway.Types
use resfit.Gateway.Maps.{find, find-stored}
use resfit.Gateway.Device.Lifetime.{set_ip_port_lem}
use resfit.Gateway.Batch.Writing.{command_of}
use resfit.Gateway.Batch.Parsing.{received_commands-encode}
use resfit.Gateway.Values.{value_text-command_of}
use resfit.Gateway.State.{AtlasDevice, Gateway, AtlasCoapResponse}
use resfit.Gateway.PubSubAgent.{get_device}
use resfit.Gateway.Device.{register_now, set_ip_port, registered_device}
use resfit.Gateway.Endpoints.{
  Answer, refused, while_accepted, Request, no_request, register_body, register_request,
  register_callback, is_empty, register_device,
}

abbrev pub texts : Bytes → Bytes → List Frame
texts identity ip_port = frame Types.register identity ∷ frame Types.ip_port ip_port ∷ []

-- A text with one byte at least, and no more than 16 bits count.
abbrev pub IsText : Bytes → Type 0
IsText text = (0 < length text) × (length text < 65536)

pub has_length : (n : ℕ) → 0 < n → n < 65536 → (u16 n == 0) ≡ false
has_length n pos small = ground arith

-- The identity is taken if it is that of the session, and refused otherwise.
take_register :
    (psk identity : Bytes) (r : Request)
    → IsText identity
    → register_body psk r (command_of (frame Types.register identity))
      ≡ Exec.ok (if str_eq psk identity then some (record r { identity = identity }) else none)
unfolding register_body
take_register psk identity r text =
    cond_false _ _ (has_length (length identity) text.0 text.1)
    ∙ ap
        (λ m.
          m >>= λ id. Exec.ok (if str_eq psk id then some (record r { identity = id }) else none))
        (value_text-command_of (frame Types.register identity)
          (record { type_fits = omega arith; value_fits = text.1 }))

take_address :
    (psk ip_port : Bytes) (r : Request)
    → IsText ip_port
    → register_body psk r (command_of (frame Types.ip_port ip_port))
      ≡ Exec.ok (some (record r { ip_port = ip_port }))
unfolding register_body
take_address psk ip_port r text =
    cond_false _ _ (has_length (length ip_port) text.0 text.1)
    ∙ ap (λ m. m >>= λ ip. Exec.ok (some (record r { ip_port = ip })))
        (value_text-command_of (frame Types.ip_port ip_port)
          (record { type_fits = omega arith; value_fits = text.1 }))

texts-AllFrames :
    (identity ip_port : Bytes)
    → IsText identity
    → IsText ip_port
    → AllFrames (texts identity ip_port)
texts-AllFrames identity ip_port a b = (
  record { type_fits = omega arith; value_fits = a.1 },
  (record { type_fits = omega arith; value_fits = b.1 }, tt),
)

-- What the end-point makes of the two commands.
register_read :
    (psk identity ip_port : Bytes) (g : Gateway)
    → IsText identity
    → IsText ip_port
    → register_callback psk
        (some (encode (texts identity ip_port)))
        (length (encode (texts identity ip_port)))
        g
      ≡ Exec.ok (
          register_request psk g (
            if str_eq psk identity
            then some (record { identity = identity; ip_port = ip_port; token = none })
            else none))
unfolding register_callback
register_read psk identity ip_port g a b =
    ap
      (λ m. m >>= λ cmds.
        if is_empty cmds
        then Exec.ok (refused g)
        else (while_accepted (register_body psk) (some no_request) cmds >>= λ r.
            Exec.ok (register_request psk g r)))
      (received_commands-encode (frame Types.register identity) (frame Types.ip_port ip_port ∷ [])
        (texts-AllFrames identity ip_port a b))
    ∙ ap
        (λ m.
          m
          >>= (λ s.
              while_accepted (register_body psk) s (command_of (frame Types.ip_port ip_port) ∷ []))
          >>= λ r. Exec.ok (register_request psk g r))
        (take_register psk identity no_request a)
    ∙ either (str_eq psk identity)
  where
    either :
        (same : Bool)
        → (while_accepted
              (register_body psk)
              (if same then some (record no_request { identity = identity }) else none)
              (command_of (frame Types.ip_port ip_port) ∷ [])
            >>= λ r. Exec.ok (register_request psk g r))
          ≡ Exec.ok (
              register_request psk g (
                if same
                then some (record { identity = identity; ip_port = ip_port; token = none })
                else none))
    either true =
        ap
          (λ m. m >>= (λ s. while_accepted (register_body psk) s []) >>= λ r.
            Exec.ok (register_request psk g r))
          (take_address psk ip_port (record no_request { identity = identity }) b)
    either false = refl

pub text_not_empty : (x : Bytes) → 0 < length x → str_eq x [] ≡ false
unfolding str_eq
text_not_empty [] h = absurd (omega arith)
text_not_empty (x ∷ xs) h = refl

-- A device as a registration leaves it.
pub record IsRegistered (ip_port : Bytes) (before after : AtlasDevice) : Type 0 where
  pub registered : after.registered ≡ true
  pub counter : after.ka_ctr ≡ some 4
  pub address : after.ip_port ≡ ip_port
  pub policy : after.policy ≡ before.policy

register_now-IsRegistered :
    (ip_port : Bytes) (d : AtlasDevice) (g : Gateway)
    → IsRegistered ip_port d (set_ip_port ip_port (register_now (d, g))).0
unfolding register_now
register_now-IsRegistered ip_port d g =
    subst (IsRegistered ip_port d) (sym (set_ip_port_lem ip_port (registered_device d) _).0)
      (record { registered = refl; counter = refl; address = refl; policy = refl })

-- The request of a device that the gateway finds, under the identity of the session.
pub register_callback-texts :
    (identity ip_port : Bytes) (g g' : Gateway) (d : AtlasDevice)
    → IsText identity
    → IsText ip_port
    → get_device g identity ≡ (g', some d)
    → (a : Answer) × (d' : AtlasDevice) × (register_callback identity
          (some (encode (texts identity ip_port)))
          (length (encode (texts identity ip_port)))
          g
        ≡ Exec.ok a)
      × (a.response ≡ AtlasCoapResponse.ok)
      × (find identity a.gateway.devices ≡ some d')
      × IsRegistered ip_port d d'
unfolding register_request
register_callback-texts identity ip_port g g' d a b known =
    let r : Request = record { identity = identity; ip_port = ip_port; token = none } in
    (
      register_device r identity (g', some d),
      (set_ip_port ip_port (register_now (d, g'))).0,
      register_read identity identity ip_port g a b
          ∙ ap (λ o. Exec.ok (register_request identity g o)) (cond_true _ _ (str_eq_self identity))
          ∙ ap
              (λ e. Exec.ok (
                if e || str_eq ip_port []
                then refused g
                else register_device r identity (get_device g identity)))
              (text_not_empty identity a.0)
          ∙ ap
              (λ e.
                Exec.ok
                  (if e then refused g else register_device r identity (get_device g identity)))
              (text_not_empty ip_port b.0)
          ∙ ap (λ gd. Exec.ok (register_device r identity gd)) known,
      refl,
      find-stored identity _ _,
      register_now-IsRegistered ip_port d g',
    )

-- A registration under another identity than that of the DTLS session is refused, and the gateway
-- is as before, whatever identity and address of one byte to 65535 bytes it names.
pub register_callback-spoofed :
    (psk identity ip_port : Bytes) (g : Gateway)
    → IsText identity
    → IsText ip_port
    → psk ≢ identity
    → register_callback psk
        (some (encode (texts identity ip_port)))
        (length (encode (texts identity ip_port)))
        g
      ≡ Exec.ok (refused g)
unfolding register_request
register_callback-spoofed psk identity ip_port g a b other =
    register_read psk identity ip_port g a b
    ∙ ap (λ o. Exec.ok (register_request psk g o))
        (cond_false _ _ (text_differs psk identity other))
