-- ===== src/Config.antt =====
-- atlas_client/src/utils/atlas_config.c: the settings from the command line, and the URIs and the
-- address that are made of them. A setter returns its status; `atoi` is a parameter.
pub mod Bounds
use resfit.Prelude.{
  ℕ, ◌+◌, ◌≤◌, Bool, true, false, ◌||◌, Option, none, some, List, [], ◌∷◌, ◌++◌, length, take,
  replicate, leb, ltb, ◌==◌, if◌then◌else◌, Exec, ok, ub, ◌>>=◌, checked,
}
use resfit.Prelude.Memory.{Bytes, write_at}
use resfit.Prelude.Text.{codes, decimal}
use resfit.Status.{Status}
use resfit.State.{Settings}

abbrev pub uri_max_len : ℕ
uri_max_len = 256

abbrev pub max_port_val : ℕ
max_port_val = 65535

-- `p = malloc (strlen (s)); strcpy (p, s);`: the copy writes the bytes of `s` and a closing 0.
copy_string : Bytes → Exec Bytes
copy_string s = write_at (replicate (length s) 0) 0 (s ++ (0 ∷ []))

-- `atlas_cfg_set_hostname`
unfoldable pub set_hostname : (hostname : Option Bytes) → Settings → Exec (Status × Settings)
unfolding copy_string
set_hostname none s = ok (Status.invalid_input, s)
set_hostname (some hostname) s = do
  _ ← copy_string hostname
  ok (Status.ok, record s { gw_hostname = hostname })

-- `atlas_cfg_set_local_iface`
unfoldable pub set_local_iface : (iface : Option Bytes) → Settings → Exec (Status × Settings)
unfolding copy_string
set_local_iface none s = ok (Status.invalid_input, s)
set_local_iface (some iface) s = do
  _ ← copy_string iface
  ok (Status.ok, record s { local_iface = iface })

-- A port is refused if it is not positive or above the largest port; `atoi` gives none for a
-- negative number.
abbrev pub is_port : Option ℕ → Bool
is_port none = false
is_port (some n) = if n == 0 then false else leb n max_port_val

module _ (atoi : Bytes → Option ℕ) where
  -- `atlas_cfg_set_port`
  unfoldable pub set_port : (port : Option Bytes) → Settings → Exec (Status × Settings)
  unfolding copy_string
  set_port none s = ok (Status.invalid_input, s)
  set_port (some port) s =
      if is_port (atoi port)
      then (do _ ← copy_string port; ok (Status.ok, record s { gw_port = port }))
      else ok (Status.invalid_input, s)

  abbrev pub port_or : Option ℕ → ℕ → ℕ
  port_or none old = old
  port_or (some n) old = n

  -- `atlas_cfg_set_local_port`
  unfoldable pub set_local_port : (port : Option Bytes) → Settings → Status × Settings
  set_local_port none s = (Status.invalid_input, s)
  set_local_port (some port) s =
      if is_port (atoi port)
      then (Status.ok, record s { local_port = port_or (atoi port) s.local_port })
      else (Status.invalid_input, s)

-- What `atlas_cfg_coap_get_uri` writes, without the closing 0.
abbrev pub uri_of : Settings → (path : Bytes) → Bytes
uri_of s path =
    codes "coaps://" ++ (s.gw_hostname ++ (codes ":" ++ (s.gw_port ++ (codes "/" ++ path))))

-- `atlas_cfg_coap_get_uri` into a buffer of `ATLAS_URI_MAX_LEN` bytes
unfoldable pub coap_get_uri : Settings → (path : Bytes) → Exec Bytes
coap_get_uri s path = checked (leb (length (uri_of s path) + 1) uri_max_len) (uri_of s path)

-- `atlas_cfg_get_local_ipPort`; none where the address of the interface is not to be had
unfoldable pub get_local_ip_port : Settings → Option Bytes
get_local_ip_port s = elim s.local_ip [
  | none ↦ none
  | some ip ↦ some (take 16 ip ++ (codes ":" ++ take 6 (take 5 (decimal 5 s.local_port))))
]

-- The buffer that a caller of `atlas_cfg_get_local_ipPort` cleared and goes on with in any case.
abbrev pub ip_port_text : Option Bytes → Bytes
ip_port_text none = []
ip_port_text (some t) = t
