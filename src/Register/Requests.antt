-- ===== src/Register/Requests.antt =====
-- The requests that register the client and keep it alive, byte by byte.
use resfit.Prelude.{
  ℕ, ◌+◌, ◌%◌, ◌≤◌, ◌≡◌, ap, ◌∙◌, Option, none, some, List, [], ◌∷◌, ◌++◌, arith, length, take,
  length-take, length-append, Exec, ok, ◌>>=◌,
}
use resfit.Prelude.Memory.{Bytes, host_bytes}
use resfit.Prelude.Text.{codes, decimal}
use resfit.Status.{CoapMethod}
use resfit.Command.Types
use resfit.Command.Frame.{Frame, frame, encode}
use resfit.Command.Sender.{send_batch-encode}
use resfit.State.{CoapCallback, Settings, Client}
use resfit.Config.{uri_of, get_local_ip_port, ip_port_text}
use resfit.Config.Bounds.{coap_get_uri_fits}
use resfit.CoapClient.{coap_request}
use resfit.Register.{send_register_command, send_keepalive_command, keepalive_with, next_ka_token}

-- The settings that the command line and the identity file can give.
pub record Configured (s : Settings) : Type 0 where
  pub short_identity : length s.identity ≤ 64
  pub short_hostname : length s.gw_hostname ≤ 128
  pub short_port : length s.gw_port ≤ 6

ip_port_by :
    (o : Option Bytes) (p : Bytes)
    → length (
        ip_port_text
          (elim o [ none ↦ none | some ip ↦ some (take 16 ip ++ (codes ":" ++ take 6 p)) ]))
      ≤ 64
ip_port_by none p = omega arith
ip_port_by (some ip) p =
    omega (
      arith,
      length-append (take 16 ip) (codes ":" ++ take 6 p),
      length-take 16 ip,
      length-take 6 p,
    )

pub length-ip_port : (s : Settings) → length (ip_port_text (get_local_ip_port s)) ≤ 64
unfolding get_local_ip_port
length-ip_port s = ip_port_by s.local_ip (take 5 (decimal 5 s.local_port))

length-two : (f g : Frame) → length (encode (f ∷ g ∷ [])) ≡ 8 + length f.value + length g.value
length-two f g = omega (arith, length-append f.value (encode (g ∷ [])), length-append g.value [])

length-three :
    (f g h : Frame)
    → length (encode (f ∷ g ∷ h ∷ [])) ≡ 12 + length f.value + length g.value + length h.value
length-three f g h = omega (arith, length-append f.value (encode (g ∷ h ∷ [])), length-two g h)

-- A sender's steps once its bytes and its URI are known.
sender :
    {A : Type 0} {x y : Exec Bytes} {buf uri : Bytes} (k : Bytes → Bytes → Exec A)
    → x ≡ ok buf
    → y ≡ ok uri
    → (x >>= λ b. y >>= k b) ≡ k buf uri
sender {y = y} {buf = buf} k e h = ap (λ m. m >>= λ b. y >>= k b) e ∙ ap (λ m. m >>= k buf) h

-- The commands that a registration request carries.
abbrev pub register_frames : Settings → List Frame
register_frames s =
    frame Types.register s.identity ∷ frame Types.ip_port (ip_port_text (get_local_ip_port s)) ∷ []

-- The commands that a keep-alive request carries, with the token.
abbrev pub keepalive_frames : Settings → ℕ → List Frame
keepalive_frames s token =
    frame Types.identity s.identity
    ∷ frame Types.keepalive (host_bytes token)
    ∷ frame Types.ip_port (ip_port_text (get_local_ip_port s))
    ∷ []

-- With settings that the command line and the identity file can give, a registration is one POST
-- request to the path gateway/register, whose payload is the bytes of two commands: the identity,
-- and the address of the client.
pub send_register_command_lem :
    (c : Client)
    → Configured c.settings
    → send_register_command c
      ≡ ok (
          (coap_request
            (uri_of c.settings (codes "gateway/register"))
            CoapMethod.post
            (encode (register_frames c.settings))
            5000
            CoapCallback.registered
            c).1)
unfolding send_register_command
send_register_command_lem c h =
    sender (λ buf uri. ok ((coap_request uri CoapMethod.post buf 5000 CoapCallback.registered c).1))
      (send_batch-encode (register_frames c.settings)
        (
          record { type_fits = omega arith; value_fits = omega (arith, h.short_identity) },
          (
            record {
              type_fits = omega arith;
              value_fits = omega (arith, length-ip_port c.settings);
            },
            tt,
          ),
        )
        (omega (
          arith,
          h.short_identity,
          length-ip_port c.settings,
          length-two (frame Types.register c.settings.identity)
              (frame Types.ip_port (ip_port_text (get_local_ip_port c.settings))),
        )))
      (coap_get_uri_fits c.settings (codes "gateway/register") h.short_hostname h.short_port
        (omega arith))

-- With such settings a keep-alive first moves to the next token, modulo 65536, and then is one PUT
-- request to the path gateway/keepalive, whose payload is the bytes of three commands: the identity,
-- the new token as it lies in memory, and the address of the client.
pub send_keepalive_command_lem :
    (c : Client)
    → Configured c.settings
    → let token = (c.registration.ka_token + 1) % 65536 in
      send_keepalive_command c
      ≡ ok (
          (coap_request
            (uri_of c.settings (codes "gateway/keepalive"))
            CoapMethod.put
            (encode (keepalive_frames c.settings token))
            5000
            CoapCallback.keepalive
            (record c { registration = record (c.registration) { ka_token = token } })).1)
unfolding send_keepalive_command keepalive_with
send_keepalive_command_lem c h =
    let d : Client = next_ka_token c in
    let token : ℕ = (c.registration.ka_token + 1) % 65536 in
    sender (λ buf uri. ok ((coap_request uri CoapMethod.put buf 5000 CoapCallback.keepalive d).1))
      (send_batch-encode (keepalive_frames c.settings token)
        (
          record { type_fits = omega arith; value_fits = omega (arith, h.short_identity) },
          (
            record { type_fits = omega arith; value_fits = omega arith },
            (
              record {
                type_fits = omega arith;
                value_fits = omega (arith, length-ip_port c.settings);
              },
              tt,
            ),
          ),
        )
        (omega (
          arith,
          h.short_identity,
          length-ip_port c.settings,
          length-three (frame Types.identity c.settings.identity)
              (frame Types.keepalive (host_bytes token))
              (frame Types.ip_port (ip_port_text (get_local_ip_port c.settings))),
        )))
      (coap_get_uri_fits c.settings (codes "gateway/keepalive") h.short_hostname h.short_port
        (omega arith))
