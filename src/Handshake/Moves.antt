-- ===== src/Handshake/Moves.antt =====
-- The moves between the init states of rfb.js.
use warpyard.Base.{ℕ, ◌<◌, Option, some, ◌⊎◌, ◌≡◌}
use warpyard.Handshake.{
  InitState, protocol_version, security, authentication, security_result, security_reason,
  client_initialisation, server_initialisation, Session, Step,
}
use warpyard.Handshake.Security.{none_type}

-- From a state to the next, with the scheme and the version, and the next four bytes as a number.
pub data Moves (scheme : Option ℕ) (rfb_version word : ℕ) : InitState → InitState → Type 0 where
  stays : (a : InitState) → Moves scheme rfb_version word a a
  agrees : Moves scheme rfb_version word protocol_version security
  chooses : Moves scheme rfb_version word security authentication
  offers_nothing : Moves scheme rfb_version word security security_reason
  needs_none :
      scheme ≡ some none_type
      → rfb_version < 38
      → Moves scheme rfb_version word authentication client_initialisation
  proves : Moves scheme rfb_version word authentication security_result
  accepts : word ≡ 0 → Moves scheme rfb_version word security_result client_initialisation
  rejects : Moves scheme rfb_version word security_result security_reason
  initialises : Moves scheme rfb_version word client_initialisation server_initialisation

-- A step moves so, and connects from "ServerInitialisation" only.
abbrev pub Goes : Session → ℕ → InitState → Step → Type 0
Goes s word a r =
    Moves s.auth_scheme s.rfb_version word a r.session.init_state
    × ((r.session.connected ≡ s.connected) ⊎ (a ≡ server_initialisation))
