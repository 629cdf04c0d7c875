-- ===== src/Handshake/Security.antt =====
-- `_negotiateSecurity`, `_handleSecurityResult` and `_handleSecurityReason` of rfb.js.
use warpyard.Base.{
  ℕ, Bool, false, ◌||◌, Option, none, some, List, [], ◌∷◌, ltb, leb, ◌==◌, if◌then◌else◌,
}
use warpyard.Stream.Handler.{Handler, ◌>>=◌, ◌>>◌, give, rq_wait, read8, read32, read_bytes}
use warpyard.Handshake.{
  Session, Step, authentication, security_reason, client_initialisation, no_security_types,
  authentication_scheme, result_context, puts, refuses, go_on, fail,
}

abbrev pub none_type : ℕ
none_type = 1

abbrev pub vnc_auth_type : ℕ
vnc_auth_type = 2

abbrev pub ra2ne_type : ℕ
ra2ne_type = 6

abbrev pub tight_type : ℕ
tight_type = 16

abbrev pub vencrypt_type : ℕ
vencrypt_type = 19

abbrev pub xvp_type : ℕ
xvp_type = 22

abbrev pub ard_type : ℕ
ard_type = 30

abbrev pub ms_logon_ii_type : ℕ
ms_logon_ii_type = 113

abbrev pub unix_logon_type : ℕ
unix_logon_type = 129

abbrev pub plain_type : ℕ
plain_type = 256

abbrev pub client_types : List ℕ
client_types =
    none_type ∷ vnc_auth_type ∷ ra2ne_type ∷ tight_type ∷ vencrypt_type ∷ xvp_type ∷ ard_type
    ∷ ms_logon_ii_type ∷ plain_type ∷ []

abbrev pub includes : List ℕ → ℕ → Bool
includes [] n = false
includes (m ∷ ms) n = m == n || includes ms n

-- `_isSupportedSecurityType`
abbrev pub is_supported_security_type : ℕ → Bool
is_supported_security_type = includes client_types

-- The first type of the server's list that is supported; `none` is -1.
unfoldable pub first_supported : List ℕ → Option ℕ
first_supported [] = none
first_supported (type ∷ types) =
    if is_supported_security_type type then some type else first_supported types

abbrev pub choose : Session → Option ℕ → Step
choose s none = fail (record s { auth_scheme = none }) []
choose s (some type) =
    go_on (record s { auth_scheme = some type; init_state = authentication })
      (puts (type ∷ []) ∷ [])

unfoldable pub choose_of : ℕ → Session → Handler Step
unfolding first_supported
choose_of num_types s =
    if num_types == 0
    then give (
        go_on
          (record s {
            init_state = security_reason;
            security_context = no_security_types;
            security_status = 1;
          })
          [])
    else (do types ← read_bytes num_types; give (choose s (first_supported types)))

-- "Server decides"
abbrev pub decided : Session → ℕ → Step
decided s scheme =
    if scheme == 0
    then go_on
        (record s {
          auth_scheme = some scheme;
          init_state = security_reason;
          security_context = authentication_scheme;
          security_status = 1;
        })
        []
    else go_on (record s { auth_scheme = some scheme; init_state = authentication }) []

unfoldable pub negotiate_security : Session → Handler Step
unfolding choose_of
negotiate_security s =
    if leb 37 s.rfb_version
    then (do num_types ← read8; rq_wait num_types 1; choose_of num_types s)
    else (do rq_wait 4 0; scheme ← read32; give (decided s scheme))

abbrev pub refuse : Session → List ℕ → Step
refuse s [] = fail s (refuses s.security_status none ∷ [])
refuse s (c ∷ reason) = fail s (refuses s.security_status (some (c ∷ reason)) ∷ [])

unfoldable pub handle_security_reason : Session → Handler Step
handle_security_reason s = do
  rq_wait 4 0
  strlen ← read32
  if ltb 0 strlen
      then (do rq_wait strlen 4; reason ← read_bytes strlen; give (refuse s reason))
      else give (refuse s [])

abbrev pub judged : Session → ℕ → Step
judged s status =
    if status == 0
    then go_on (record s { init_state = client_initialisation }) []
    else if leb 38 s.rfb_version
    then go_on
        (record s {
          init_state = security_reason;
          security_context = result_context;
          security_status = status;
        })
        []
    else fail s (refuses status none ∷ [])

unfoldable pub handle_security_result : Session → Handler Step
handle_security_result s = do rq_wait 4 0; status ← read32; give (judged s status)
