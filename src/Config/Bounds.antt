-- ===== src/Config/Bounds.antt =====
-- Bounds of the configuration: the URIs fit their buffer, and the setters do not fit theirs.
use resfit.Prelude.{
  ℕ, ◌+◌, ◌≤◌, ◌<◌, ◌≡◌, refl, true, Option, none, some, [], ◌∷◌, ◌++◌, arith, length, replicate,
  length-append, length-replicate, le→leb, ok, ub, ◌⊎◌, inr,
}
use resfit.Prelude.Memory.{Bytes, write_at_outside}
use resfit.Prelude.Text.{codes}
use resfit.Status.{Status}
use resfit.State.{Settings}
use resfit.Config.{
  copy_string, set_hostname, set_port, set_local_iface, set_local_port, is_port, uri_of,
  coap_get_uri,
}

copy_string-ub : (s : Bytes) → copy_string s ≡ ub
unfolding copy_string
copy_string-ub s =
    write_at_outside (replicate (length s) 0) 0 (s ++ (0 ∷ []))
      (omega (arith, length-append s (0 ∷ []), length-replicate {A = ℕ} (length s) 0))

-- Setting a hostname or an interface always writes one byte behind the block that was allocated for
-- it: `malloc` gets the length of the string without its closing 0. So does setting a gateway port,
-- whenever the port is accepted.
pub setters_overflow :
    (atoi : Bytes → Option ℕ) (text : Bytes) (s : Settings)
    → is_port (atoi text) ≡ true
    → (set_hostname (some text) s ≡ ub)
      × (set_local_iface (some text) s ≡ ub)
      × (set_port atoi (some text) s ≡ ub)
unfolding set_hostname set_local_iface set_port
setters_overflow atoi text s h =
    (rw (copy_string-ub text), rw (copy_string-ub text), rw (h, copy_string-ub text))

-- Whatever text is given, the local port stays within 1 and 65535, and a refused text leaves the
-- settings alone.
pub set_local_port-fits :
    (atoi : Bytes → Option ℕ) (text : Option Bytes) (s : Settings)
    → 0 < s.local_port
    → s.local_port ≤ 65535
    → let r = set_local_port atoi text s in
      (0 < r.1.local_port) × (r.1.local_port ≤ 65535) × ((r.0 ≡ Status.ok) ⊎ (r.1 ≡ s))
unfolding set_local_port
set_local_port-fits atoi none s pos fits = (pos, fits, inr refl)
set_local_port-fits atoi (some text) s pos fits = ground arith

-- With a hostname of 128 bytes at most, as the command line admits, and a port of six at most, the
-- URI of every path of 110 bytes at most fits the buffer.
pub coap_get_uri_fits :
    (s : Settings) (path : Bytes)
    → length s.gw_hostname ≤ 128
    → length s.gw_port ≤ 6
    → length path ≤ 110
    → coap_get_uri s path ≡ ok (uri_of s path)
unfolding coap_get_uri
coap_get_uri_fits s path h p q = rw (
    le→leb (length (uri_of s path) + 1) 256 (
      omega (
        arith,
        length-append s.gw_hostname (codes ":" ++ (s.gw_port ++ (codes "/" ++ path))),
        length-append s.gw_port (codes "/" ++ path),
      )))
