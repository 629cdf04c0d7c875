-- ===== src/Handshake/Choice.antt =====
-- What `_negotiateSecurity` and `_negotiateServerInit` of rfb.js make of the bytes of their messages.
use warpyard.Base.{ℕ, true, false, Option, none, some, List, ◌∷◌, ◌++◌, All, ◌≡◌}
use warpyard.Stream.Handler.{Handler}
use warpyard.Handshake.Security.{is_supported_security_type}

-- A type that is supported, behind types of which none is.
abbrev pub IsFirst : ℕ → List ℕ → Type 0
IsFirst type types =
    (front back : List ℕ) × (types ≡ front ++ type ∷ back)
    × All (λ t. is_supported_security_type t ≡ false) front
    × (is_supported_security_type type ≡ true)

-- What the choice comes to: the first one, or none.
abbrev pub IsChoice : List ℕ → Option ℕ → Type 0
IsChoice types none = All (λ t. is_supported_security_type t ≡ false) types
IsChoice types (some type) = IsFirst type types
