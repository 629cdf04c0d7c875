-- ===== src/Handshake.antt =====
-- The connecting phase of app/static/novnc/core/rfb.js: the init states, from the version of the protocol to
-- ServerInitialisation. A string is the list of its character codes, which are below 2^16 with no half of a
-- surrogate pair; a version is ten times its number.
pub mod Moves
pub mod Authentication
pub mod Version
pub mod Security
pub mod Schemes
pub mod Tight
pub mod Joining
pub mod Always
pub mod Kept
pub mod Passes
pub mod Order
pub mod Steps
pub mod Run
pub mod Choice
pub mod ServerInit
mod Tests
use warpyard.Base.{
  ℕ, ◌+◌, ◌-◌, Bool, true, false, Option, none, some, List, [], ◌∷◌, ◌++◌, length, ltb, ◌==◌,
  if◌then◌else◌,
}
use warpyard.Stream.{Stream}
use warpyard.Stream.Handler.{Answer, waits, fault, got, Handler}
use warpyard.Messages.Wire.{ClientMessage}

pub data InitState : Type 0 where
  protocol_version : InitState
  security : InitState
  authentication : InitState
  security_result : InitState
  security_reason : InitState
  client_initialisation : InitState
  server_initialisation : InitState

-- `_securityContext`
pub data Context : Type 0 where
  no_context : Context
  no_security_types : Context
  authentication_scheme : Context
  result_context : Context

-- `_rfbCredentials`
pub record Credentials : Type 0 where
  pub username : Option (List ℕ)
  pub password : Option (List ℕ)
  pub target : Option (List ℕ)
  pub ard_public_key : Option (List ℕ)
  pub ard_credentials : Option (List ℕ)

pub data Field : Type 0 where
  username_field : Field
  password_field : Field
  target_field : Field

pub data Action : Type 0 where
  -- what was pushed before a `flush`
  puts : List ℕ → Action
  sends : ClientMessage → Action
  -- the event "credentialsrequired"
  requires : List Field → Action
  -- the event "securityfailure", with its reason
  refuses : ℕ → Option (List ℕ) → Action
  -- `_negotiateARDAuthAsync` begins, with the generator, the prime and the key of the server
  begins_ard : (generator prime server_public_key : List ℕ) → Action
  -- `negotiateRA2neAuthAsync` goes on
  begins_ra2 : Action
  names_desktop : List ℕ → Action
  resizes : (width height : ℕ) → Action
  grabs : Action
  -- `_updateConnectionState("connected")`
  connects : Action
  -- `_fail`
  fails : Action

pub record Session : Type 0 where
  pub init_state : InitState
  pub connected : Bool
  pub failed : Bool
  pub rfb_version : ℕ
  pub rfb_max_version : ℕ
  -- `none` is -1
  pub auth_scheme : Option ℕ
  pub vencrypt_state : ℕ
  pub vencrypt_subtypes_length : ℕ
  pub tight_vnc : Bool
  pub security_context : Context
  pub security_status : ℕ
  pub credentials : Credentials
  pub repeater_id : List ℕ
  pub shared : Bool
  pub view_only : Bool
  pub quality_level : ℕ
  pub compression_level : ℕ
  pub fb_width : ℕ
  pub fb_height : ℕ
  pub fb_depth : ℕ
  pub fb_name : List ℕ

-- A return of `_initMsg` or of a part of it: whether it is true, the new state, what was done.
pub record Step : Type 0 where
  pub goes_on : Bool
  pub session : Session
  pub actions : List Action

abbrev pub go_on : Session → List Action → Step
go_on s es = record { goes_on = true; session = s; actions = es }

abbrev pub stop : Session → List Action → Step
stop s es = record { goes_on = false; session = s; actions = es }

-- `_fail`, which returns false.
abbrev pub fail : Session → List Action → Step
fail s es = stop (record s { failed = true }) (es ++ fails ∷ [])

-- Where a part of a message has been dealt with, `rQwait` leaves what that has changed.
unfoldable pub rq_wait_after : {A : Type 0} → (num goback : ℕ) → A → Handler A → Handler A
rq_wait_after num goback stopped next q i =
    if ltb (length q) (i + num)
    then if ltb i goback then fault else got stopped (i - goback)
    else next q i

-- What was done before.
abbrev pub before : List Action → Step → Step
before es r = record r { actions = es ++ r.actions }
