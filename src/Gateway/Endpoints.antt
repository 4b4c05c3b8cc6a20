-- ===== src/Gateway/Endpoints.antt =====
-- atlas_gateway/src/register/AtlasRegister.cpp and policy/AtlasPolicy.cpp: the end-points at which
-- clients register, are kept alive, and hand in the policy of their data plane. `psk_identity` is
-- the identity of the client's DTLS session.
pub mod Registering
pub mod Keeping
pub mod Policies
pub mod Clients
use resfit.Prelude.{
  ℕ, Bool, true, false, ◌||◌, not, Option, none, some, List, [], ◌∷◌, ◌++◌, ◌==◌, if◌then◌else◌,
  Exec, ◌>>=◌,
}
use resfit.Prelude.Memory.{Bytes}
use resfit.Prelude.Text.{str_eq}
use resfit.Gateway.Types
use resfit.Gateway.Batch.{AtlasCommand, received_commands}
use resfit.Gateway.Values.{value_text, value_bytes, value_u16}
use resfit.Gateway.State.{
  AtlasCoapResponse, ok, not_acceptable, AtlasFirewallPolicy, AtlasDevice, Gateway,
}
use resfit.Gateway.PubSubAgent.{get_device, put_device, install_firewall_rule}
use resfit.Gateway.Device.{register_now, keep_alive_now, set_ip_port, set_policy_info}

-- The answer, its payload, and the gateway.
pub record Answer : Type 0 where
  pub response : AtlasCoapResponse
  pub resp_payload : Option Bytes
  pub gateway : Gateway

abbrev pub refused : Gateway → Answer
refused g = record { response = not_acceptable; resp_payload = none; gateway = g }

abbrev pub accepted : Option Bytes → Gateway → Answer
accepted payload g = record { response = ok; resp_payload = payload; gateway = g }

-- A loop over commands, whose body may leave the end-point with a refusal: `none`.
abbrev pub while_accepted {ℓ} :
    {S : Type ℓ}
    → (S → AtlasCommand → Exec (Option S))
    → Option S
    → List AtlasCommand
    → Exec (Option S)
while_accepted body none cmds = Exec.ok none
while_accepted body (some s) [] = Exec.ok (some s)
while_accepted body (some s) (cmd ∷ cmds) = body s cmd >>= λ s. while_accepted body s cmds

-- The strings that the registration and the keep-alive collect, and the token of the latter.
pub record Request : Type 0 where
  pub identity : Bytes
  pub ip_port : Bytes
  pub token : Option Bytes

abbrev pub no_request : Request
no_request = record { identity = []; ip_port = []; token = none }

-- An identity, which must be that of the session.
abbrev take_identity : Bytes → Request → AtlasCommand → Exec (Option Request)
take_identity psk_identity r cmd = if cmd.len == 0 then Exec.ok none else (do
  identity ← value_text cmd
  Exec.ok (if str_eq psk_identity identity then some (record r { identity = identity }) else none))

abbrev take_ip_port : Request → AtlasCommand → Exec (Option Request)
take_ip_port r cmd =
    if cmd.len == 0
    then Exec.ok none
    else (do ip_port ← value_text cmd; Exec.ok (some (record r { ip_port = ip_port })))

pub register_body : (psk_identity : Bytes) → Request → AtlasCommand → Exec (Option Request)
register_body psk_identity r cmd =
    if cmd.type == Types.register
    then take_identity psk_identity r cmd
    else if cmd.type == Types.ip_port
    then take_ip_port r cmd
    else Exec.ok (some r)

-- The device registers, then gets its address, then its alerts.
abbrev pub register_device : Request → Bytes → Gateway × Option AtlasDevice → Answer
register_device r psk_identity (g, none) = refused g
register_device r psk_identity (g, some d) =
    let (d', g') = set_ip_port r.ip_port (register_now (d, g)) in
    let g'' = put_device r.identity d' g' in
    accepted none (record g'' { alerted = g''.alerted ++ d'.identity ∷ [] })

unfoldable pub register_request : (psk_identity : Bytes) → Gateway → Option Request → Answer
register_request psk_identity g none = refused g
register_request psk_identity g (some r) =
    if str_eq r.identity [] || str_eq r.ip_port []
    then refused g
    else register_device r psk_identity (get_device g r.identity)

-- `cmd.empty ()` is refused.
abbrev pub is_empty : List AtlasCommand → Bool
is_empty [] = true
is_empty (cmd ∷ cmds) = false

pub register_callback :
    (psk_identity : Bytes)
    → (req_payload : Option Bytes) → (req_payload_len : ℕ) → Gateway
    → Exec Answer
unfolding register_body register_request
register_callback psk_identity req_payload req_payload_len g = do
  cmds ← received_commands req_payload req_payload_len
  if is_empty cmds then Exec.ok (refused g) else (do
    r ← while_accepted (register_body psk_identity) (some no_request) cmds
    Exec.ok (register_request psk_identity g r))

pub keepalive_body : (psk_identity : Bytes) → Request → AtlasCommand → Exec (Option Request)
keepalive_body psk_identity r cmd =
    if cmd.type == Types.keepalive
    then (if cmd.len == 2
        then (do token ← value_bytes cmd 2; Exec.ok (some (record r { token = some token })))
        else Exec.ok none)
    else if cmd.type == Types.identity
    then take_identity psk_identity r cmd
    else if cmd.type == Types.ip_port
    then take_ip_port r cmd
    else Exec.ok (some r)

-- The token is echoed.
abbrev pub keep_device : Bytes → Request → AtlasDevice → Gateway → Option Bytes → Answer
keep_device psk_identity r d g none = refused g
keep_device psk_identity r d g (some token) =
    if str_eq r.identity [] || str_eq r.ip_port []
    then refused g
    else (let (d', g') = set_ip_port r.ip_port (keep_alive_now (d, g)) in
        accepted (some token) (put_device psk_identity d' g'))

unfoldable pub keepalive_request :
    (psk_identity : Bytes) → AtlasDevice → Gateway → Option Request → Answer
keepalive_request psk_identity d g none = refused g
keepalive_request psk_identity d g (some r) = keep_device psk_identity r d g r.token

-- A device that is in memory or in the database, and registered.
abbrev pub with_registered :
    (AtlasDevice → Gateway → Exec Answer) → Gateway × Option AtlasDevice → Exec Answer
with_registered k (g, none) = Exec.ok (refused g)
with_registered k (g, some d) = if d.registered then k d g else Exec.ok (refused g)

pub keepalive_callback :
    (psk_identity : Bytes)
    → (req_payload : Option Bytes) → (req_payload_len : ℕ) → Gateway
    → Exec Answer
unfolding keepalive_body keepalive_request
keepalive_callback psk_identity req_payload req_payload_len g =
    with_registered
      (λ d g. do
        cmds ← received_commands req_payload req_payload_len
        if is_empty cmds then Exec.ok (refused g) else (do
          r ← while_accepted (keepalive_body psk_identity) (some no_request) cmds
          Exec.ok (keepalive_request psk_identity d g r)))
      (get_device g psk_identity)

-- The three values of a policy.
pub record PolicyRequest : Type 0 where
  pub qos : Option ℕ
  pub ppm : Option ℕ
  pub payload_len : Option ℕ

abbrev pub no_policy : PolicyRequest
no_policy = record { qos = none; ppm = none; payload_len = none }

abbrev take_u16 : (ℕ → PolicyRequest) → AtlasCommand → Exec (Option PolicyRequest)
take_u16 set cmd =
    if cmd.len == 2 then (do x ← value_u16 cmd; Exec.ok (some (set x))) else Exec.ok none

pub policy_body : PolicyRequest → AtlasCommand → Exec (Option PolicyRequest)
policy_body r cmd =
    if cmd.type == Types.data_plane_policy_max_qos
    then take_u16 (λ x. record r { qos = some x }) cmd
    else if cmd.type == Types.data_plane_policy_packets_per_minute
    then take_u16 (λ x. record r { ppm = some x }) cmd
    else if cmd.type == Types.data_plane_policy_packets_maxlen
    then take_u16 (λ x. record r { payload_len = some x }) cmd
    else Exec.ok (some r)

-- The policy is set, and installed at the plug-in.
abbrev pub install_policy : Bytes → AtlasFirewallPolicy → AtlasDevice → Gateway → Exec Answer
install_policy psk_identity policy d g =
    let (d', g') = set_policy_info policy (d, g) in
    do
      g'' ← install_firewall_rule (put_device psk_identity d' g') psk_identity d'.policy
      Exec.ok (accepted none g'')

abbrev pub policy_found :
    Bytes → AtlasDevice → Gateway → (qos ppm payload_len : Option ℕ) → Exec Answer
policy_found psk_identity d g (some qos) (some ppm) (some payload_len) =
    install_policy psk_identity
      (record { client_id = psk_identity; qos = qos; ppm = ppm; payload_len = payload_len }) d g
policy_found psk_identity d g _ _ _ = Exec.ok (refused g)

pub policy_request :
    (psk_identity : Bytes) → AtlasDevice → Gateway → Option PolicyRequest → Exec Answer
policy_request psk_identity d g none = Exec.ok (refused g)
policy_request psk_identity d g (some r) = policy_found psk_identity d g r.qos r.ppm r.payload_len

pub firewall_policy_callback :
    (psk_identity : Bytes)
    → (req_payload : Option Bytes) → (req_payload_len : ℕ) → Gateway
    → Exec Answer
unfolding policy_body policy_request
firewall_policy_callback psk_identity req_payload req_payload_len g =
    with_registered
      (λ d g. do
        cmds ← received_commands req_payload req_payload_len
        if is_empty cmds then Exec.ok (refused g) else (do
          r ← while_accepted policy_body (some no_policy) cmds
          policy_request psk_identity d g r))
      (get_device g psk_identity)
