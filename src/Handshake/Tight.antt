-- ===== src/Handshake/Tight.antt =====
-- `_negotiateTightAuth` and `_negotiateTightTunnels` of rfb.js.
use warpyard.Base.{
  ℕ, zero, suc, ◌*◌, ◌/◌, ◌%◌, ◌^◌, Bool, true, false, ◌&&◌, ◌||◌, Option, none, some, List, [],
  ◌∷◌, ◌==◌, if◌then◌else◌,
}
use warpyard.Stream.Handler.{Handler, ◌>>=◌, ◌>>◌, give, rq_wait, read32, read_bytes}
use warpyard.Handshake.{Session, Step, security_result, puts, go_on, stop, fail, rq_wait_after}
use warpyard.Handshake.Version.{same_text}
use warpyard.Handshake.Security.{vnc_auth_type, unix_logon_type}

abbrev pub bytes_of : ℕ → List ℕ
bytes_of n = n / 2 ^ 24 % 256 ∷ n / 2 ^ 16 % 256 ∷ n / 2 ^ 8 % 256 ∷ n % 256 ∷ []

pub record Tunnel : Type 0 where
  pub code : ℕ
  pub vendor : List ℕ
  pub signature : List ℕ

unfoldable pub read_tunnels : ℕ → Handler (List Tunnel)
read_tunnels zero = give []
read_tunnels (suc n) = do
  code ← read32
  vendor ← read_bytes 4
  signature ← read_bytes 8
  tunnels ← read_tunnels n
  give (record { code = code; vendor = vendor; signature = signature } ∷ tunnels)

-- The entry of a code in the table: the last one that was put there.
unfoldable pub tunnel_of : ℕ → List Tunnel → Option Tunnel
tunnel_of code [] = none
tunnel_of code (t ∷ tunnels) = elim (tunnel_of code tunnels) [
  | some later ↦ some later
  | none ↦ if t.code == code then some t else none
]

-- "TGHT", "NOTUNNEL"
abbrev pub no_tunnel : Tunnel
no_tunnel = record {
  code = 0;
  vendor = 84 ∷ 71 ∷ 72 ∷ 84 ∷ [];
  signature = 78 ∷ 79 ∷ 84 ∷ 85 ∷ 78 ∷ 78 ∷ 69 ∷ 76 ∷ [];
}

-- "SICR", "SCHANNEL"
abbrev pub siemens_tunnel : Tunnel
siemens_tunnel = record {
  code = 1;
  vendor = 83 ∷ 73 ∷ 67 ∷ 82 ∷ [];
  signature = 83 ∷ 67 ∷ 72 ∷ 65 ∷ 78 ∷ 78 ∷ 69 ∷ 76 ∷ [];
}

abbrev pub is_like : Tunnel → Option Tunnel → Bool
is_like t none = false
is_like t (some u) = same_text u.vendor t.vendor && same_text u.signature t.signature

abbrev pub choose_tunnel : Session → Option Tunnel → Step
choose_tunnel s none = fail s []
choose_tunnel s (some t) =
    if is_like no_tunnel (some t) then stop s (puts (bytes_of 0) ∷ []) else fail s []

-- The Siemens server supports no tunnel without saying so.
unfoldable pub negotiate_tight_tunnels : ℕ → Session → Handler Step
unfolding read_tunnels tunnel_of
negotiate_tight_tunnels num_tunnels s = do
  tunnels ← read_tunnels num_tunnels
  give (
      choose_tunnel s (
        if is_like siemens_tunnel (tunnel_of 1 tunnels)
        then some no_tunnel
        else tunnel_of 0 tunnels))

-- "STDVNOAUTH__", "STDVVNCAUTH_" and "TGHTULGNAUTH"
abbrev pub no_auth_text : List ℕ
no_auth_text = 83 ∷ 84 ∷ 68 ∷ 86 ∷ 78 ∷ 79 ∷ 65 ∷ 85 ∷ 84 ∷ 72 ∷ 95 ∷ 95 ∷ []

abbrev pub vnc_auth_text : List ℕ
vnc_auth_text = 83 ∷ 84 ∷ 68 ∷ 86 ∷ 86 ∷ 78 ∷ 67 ∷ 65 ∷ 85 ∷ 84 ∷ 72 ∷ 95 ∷ []

abbrev pub unix_logon_text : List ℕ
unix_logon_text = 84 ∷ 71 ∷ 72 ∷ 84 ∷ 85 ∷ 76 ∷ 71 ∷ 78 ∷ 65 ∷ 85 ∷ 84 ∷ 72 ∷ []

unfoldable pub read_capabilities : ℕ → Handler (List (List ℕ))
read_capabilities zero = give []
read_capabilities (suc n) = do
  cap_num ← read32
  text ← read_bytes 12
  texts ← read_capabilities n
  give (text ∷ texts)

abbrev pub has_text : List ℕ → List (List ℕ) → Bool
has_text text [] = false
has_text text (t ∷ texts) = same_text t text || has_text text texts

-- The first type of the client's list that the server has.
unfoldable pub choose_sub_auth : Session → List (List ℕ) → Step
choose_sub_auth s texts =
    if has_text no_auth_text texts
    then go_on (record s { init_state = security_result }) (puts (bytes_of 1) ∷ [])
    else if has_text vnc_auth_text texts
    then go_on (record s { auth_scheme = some vnc_auth_type }) (puts (bytes_of 2) ∷ [])
    else if has_text unix_logon_text texts
    then go_on (record s { auth_scheme = some unix_logon_type }) (puts (bytes_of 129) ∷ [])
    else fail s []

-- The second pass.
unfoldable pub negotiate_sub_auth : Session → Handler Step
unfolding read_capabilities choose_sub_auth
negotiate_sub_auth s = rq_wait_after 4 0 (stop s []) (do
  sub_auth_count ← read32
  if sub_auth_count == 0
      then give (go_on (record s { init_state = security_result }) [])
      else rq_wait_after (16 * sub_auth_count) 4 (stop s [])
          (do texts ← read_capabilities sub_auth_count; give (choose_sub_auth s texts)))

-- What `_negotiateTightTunnels` returns makes no difference.
abbrev pub tunnels_done : Step → Step
tunnels_done r = record r { goes_on = false }

unfoldable pub negotiate_tight_auth : Session → Handler Step
unfolding negotiate_tight_tunnels negotiate_sub_auth
negotiate_tight_auth s = if s.tight_vnc then negotiate_sub_auth s else (do
  rq_wait 4 0
  num_tunnels ← read32
  rq_wait (16 * num_tunnels) 4
  (let s' = record s { tight_vnc = true } in
      if num_tunnels == 0
      then negotiate_sub_auth s'
      else (do r ← negotiate_tight_tunnels num_tunnels s'; give (tunnels_done r))))
