-- ===== src/Gateway/Endpoints/Keeping.antt =====
-- The client's keep-alive at the gateway.
use resfit.Prelude.{
  ℕ, ◌+◌, ◌≡◌, refl, sym, ap, ◌∙◌, subst, true, ◌||◌, Option, none, some, List, [], ◌∷◌, map, arith,
  length, if◌then◌else◌, cond_true, cond_false, Exec, ◌>>=◌,
}
use resfit.Prelude.Memory.{Bytes, read_at_all}
use resfit.Prelude.Text.{str_eq, str_eq_self}
use resfit.Command.Frame.{Frame, frame, AllFrames, encode}
use resfit.Gateway.Types
use resfit.Gateway.Batch.{AtlasCommand, received_commands}
use resfit.Gateway.Batch.Writing.{command_of}
use resfit.Gateway.Batch.Parsing.{received_commands-encode}
use resfit.Gateway.Values.{value_bytes, value_text-command_of}
use resfit.Gateway.Maps.{find, find-stored}
use resfit.Gateway.State.{AtlasDevice, Gateway, AtlasCoapResponse}
use resfit.Gateway.PubSubAgent.{get_device, put_device}
use resfit.Gateway.Device.{keep_alive_now, set_ip_port}
use resfit.Gateway.Device.Lifetime.{set_ip_port_lem}
use resfit.Gateway.Endpoints.{
  Answer, refused, accepted, while_accepted, Request, no_request, with_registered, is_empty,
  keepalive_body, keepalive_request, keepalive_callback,
}
use resfit.Gateway.Endpoints.Registering.{IsText, has_length, text_not_empty}

abbrev pub alive_frames : (identity token ip_port : Bytes) → List Frame
alive_frames identity token ip_port =
    frame Types.identity identity ∷ frame Types.keepalive token ∷ frame Types.ip_port ip_port ∷ []

keep_identity :
    (identity : Bytes) (r : Request)
    → IsText identity
    → keepalive_body identity r (command_of (frame Types.identity identity))
      ≡ Exec.ok (some (record r { identity = identity }))
unfolding keepalive_body
keep_identity identity r text =
    cond_false _ _ (has_length (length identity) text.0 text.1)
    ∙ ap
        (λ m. m >>= λ id.
          Exec.ok (if str_eq identity id then some (record r { identity = id }) else none))
        (value_text-command_of (frame Types.identity identity)
          (record { type_fits = omega arith; value_fits = text.1 }))
    ∙ ap Exec.ok (cond_true _ _ (str_eq_self identity))

keep_token :
    (identity : Bytes) (a b : ℕ) (r : Request)
    → keepalive_body identity r (command_of (frame Types.keepalive (a ∷ b ∷ [])))
      ≡ Exec.ok (some (record r { token = some (a ∷ b ∷ []) }))
unfolding keepalive_body value_bytes
keep_token identity a b r =
    ap (λ m. m >>= λ token. Exec.ok (some (record r { token = some token })))
      (read_at_all (a ∷ b ∷ []))

keep_address :
    (identity ip_port : Bytes) (r : Request)
    → IsText ip_port
    → keepalive_body identity r (command_of (frame Types.ip_port ip_port))
      ≡ Exec.ok (some (record r { ip_port = ip_port }))
unfolding keepalive_body
keep_address identity ip_port r text =
    cond_false _ _ (has_length (length ip_port) text.0 text.1)
    ∙ ap (λ m. m >>= λ ip. Exec.ok (some (record r { ip_port = ip })))
        (value_text-command_of (frame Types.ip_port ip_port)
          (record { type_fits = omega arith; value_fits = text.1 }))

alive_frames-AllFrames :
    (identity ip_port : Bytes) (a b : ℕ)
    → IsText identity
    → IsText ip_port
    → AllFrames (alive_frames identity (a ∷ b ∷ []) ip_port)
alive_frames-AllFrames identity ip_port a b t u = (
  record { type_fits = omega arith; value_fits = t.1 },
  (
    record { type_fits = omega arith; value_fits = omega arith },
    (record { type_fits = omega arith; value_fits = u.1 }, tt),
  ),
)

-- The three commands, read in order.
alive_read :
    (identity ip_port : Bytes) (a b : ℕ)
    → IsText identity
    → IsText ip_port
    → while_accepted
        (keepalive_body identity)
        (some no_request)
        (map command_of (alive_frames identity (a ∷ b ∷ []) ip_port))
      ≡ Exec.ok
          (some (record { identity = identity; ip_port = ip_port; token = some (a ∷ b ∷ []) }))
alive_read identity ip_port a b t u =
    let body = while_accepted (keepalive_body identity) in
    let address : AtlasCommand = command_of (frame Types.ip_port ip_port) in
    let token : AtlasCommand = command_of (frame Types.keepalive (a ∷ b ∷ [])) in
    let named : Request = record no_request { identity = identity } in
    ap (λ m. m >>= λ s. body s (token ∷ address ∷ [])) (keep_identity identity no_request t)
    ∙ ap (λ m. m >>= λ s. body s (address ∷ [])) (keep_token identity a b named)
    ∙ ap (λ m. m >>= λ s. body s [])
        (keep_address identity ip_port (record named { token = some (a ∷ b ∷ []) }) u)

-- A device as a keep-alive leaves it.
pub record IsKept (ip_port : Bytes) (before after : AtlasDevice) : Type 0 where
  pub registered : after.registered ≡ true
  pub counter : after.ka_ctr ≡ some 4
  pub counted : after.keep_alive_pkts ≡ before.keep_alive_pkts + 1
  pub address : after.ip_port ≡ ip_port
  pub policy : after.policy ≡ before.policy

keep_alive_now-IsKept :
    (ip_port : Bytes) (d : AtlasDevice) (g : Gateway)
    → d.registered ≡ true
    → IsKept ip_port d (set_ip_port ip_port (keep_alive_now (d, g))).0
unfolding keep_alive_now
keep_alive_now-IsKept ip_port d g on =
    subst (IsKept ip_port d) (sym (set_ip_port_lem ip_port (keep_alive_now (d, g)).0 _).0)
      (record { registered = on; counter = refl; counted = refl; address = refl; policy = refl })

-- The keep-alive of a registered device, under the identity of the session, is answered with its
-- token.
pub keepalive_callback-alive :
    (identity ip_port : Bytes) (a b : ℕ) (g g' : Gateway) (d : AtlasDevice)
    → IsText identity
    → IsText ip_port
    → get_device g identity ≡ (g', some d)
    → d.registered ≡ true
    → (ans : Answer) × (d' : AtlasDevice) × (keepalive_callback identity
          (some (encode (alive_frames identity (a ∷ b ∷ []) ip_port)))
          (length (encode (alive_frames identity (a ∷ b ∷ []) ip_port)))
          g
        ≡ Exec.ok ans)
      × (ans.response ≡ AtlasCoapResponse.ok)
      × (ans.resp_payload ≡ some (a ∷ b ∷ []))
      × (find identity ans.gateway.devices ≡ some d')
      × IsKept ip_port d d'
unfolding keepalive_callback keepalive_request
keepalive_callback-alive identity ip_port a b g g' d t u known on =
    let fs : List Frame = alive_frames identity (a ∷ b ∷ []) ip_port in
    let kept : AtlasDevice × Gateway = set_ip_port ip_port (keep_alive_now (d, g')) in
    let ans : Answer = accepted (some (a ∷ b ∷ [])) (put_device identity kept.0 kept.1) in
    let read : Gateway × Option AtlasDevice → Exec Answer = with_registered (λ d g.
      received_commands (some (encode fs)) (length (encode fs)) >>= λ cmds.
      if is_empty cmds
      then Exec.ok (refused g)
      else (while_accepted (keepalive_body identity) (some no_request) cmds >>= λ r.
          Exec.ok (keepalive_request identity d g r))) in
    (
      ans,
      kept.0,
      ap read known
          ∙ cond_true _ _ on
          ∙ ap
              (λ m. m >>= λ cmds.
                if is_empty cmds
                then Exec.ok (refused g')
                else (while_accepted (keepalive_body identity) (some no_request) cmds >>= λ r.
                    Exec.ok (keepalive_request identity d g' r)))
              (received_commands-encode (frame Types.identity identity)
                (frame Types.keepalive (a ∷ b ∷ []) ∷ frame Types.ip_port ip_port ∷ [])
                (alive_frames-AllFrames identity ip_port a b t u))
          ∙ ap (λ m. m >>= λ r. Exec.ok (keepalive_request identity d g' r))
              (alive_read identity ip_port a b t u)
          ∙ ap (λ e. Exec.ok (if e || str_eq ip_port [] then refused g' else ans))
              (text_not_empty identity t.0)
          ∙ ap (λ e. Exec.ok (if e then refused g' else ans)) (text_not_empty ip_port u.0),
      refl,
      refl,
      find-stored identity _ _,
      keep_alive_now-IsKept ip_port d g' on,
    )
