-- ===== src/Handshake/Tests.antt =====
-- Runs of the handshake.
use warpyard.Base.{ℕ, true, false, none, some, List, [], ◌∷◌, ◌≡◌, refl}
use warpyard.Stream.{Stream}
use warpyard.Stream.Handler
use warpyard.Utf8.{decode_utf8}
use warpyard.Stream.Handler.{Answer, got}
use warpyard.Handshake.{
  protocol_version, security, authentication, security_result, client_initialisation,
  server_initialisation, no_context, Session, Step, puts, go_on, stop,
}
use warpyard.Handshake.Version.{client_version}
use warpyard.Handshake.Joining.{init_msg, joined}
use warpyard.Handshake.Run.{Run, begins, calls, IsAccepted, connected-IsAccepted}

abbrev no_des : List ℕ → List ℕ → List ℕ
no_des password challenge = challenge

abbrev no_ms : List ℕ → List ℕ → List ℕ → List ℕ → List ℕ → List ℕ
no_ms g p a username password = a

abbrev fresh : Session
fresh = record {
  init_state = protocol_version;
  connected = false;
  failed = false;
  rfb_version = 0;
  rfb_max_version = 38;
  auth_scheme = none;
  vencrypt_state = 0;
  vencrypt_subtypes_length = 0;
  tight_vnc = false;
  security_context = no_context;
  security_status = 0;
  credentials = record {
    username = none;
    password = none;
    target = none;
    ard_public_key = none;
    ard_credentials = none;
  };
  repeater_id = [];
  shared = true;
  view_only = false;
  quality_level = 6;
  compression_level = 2;
  fb_width = 0;
  fb_height = 0;
  fb_depth = 0;
  fb_name = [];
}

-- "RFB 003.008\n"
abbrev version_bytes : Stream
version_bytes = client_version 38

abbrev versioned : Step
versioned =
    stop (record fresh { rfb_version = 38; init_state = security }) (puts (client_version 38) ∷ [])

abbrev chosen : Step
chosen =
    go_on (record versioned.session { auth_scheme = some 1; init_state = authentication })
      (puts (1 ∷ []) ∷ [])

abbrev proved : Step
proved = go_on (record chosen.session { init_state = security_result }) []

abbrev accepted : Step
accepted = go_on (record proved.session { init_state = client_initialisation }) []

abbrev initialised : Step
initialised =
    go_on (record accepted.session { init_state = server_initialisation }) (puts (1 ∷ []) ∷ [])

-- A screen of 4 by 3 with the name "A".
abbrev server_bytes : Stream
server_bytes =
    0 ∷ 4 ∷ 0 ∷ 3 ∷ 32 ∷ 24 ∷ 0 ∷ 1 ∷ 0 ∷ 255 ∷ 0 ∷ 255 ∷ 0 ∷ 255 ∷ 16 ∷ 8 ∷ 0 ∷ 0 ∷ 0 ∷ 0 ∷ 0 ∷ 0
    ∷ 0 ∷ 1 ∷ 65 ∷ []

abbrev in_it : Step
in_it = joined initialised.session 4 3 (65 ∷ [])

version_call : init_msg no_des no_ms fresh version_bytes 0 ≡ got versioned 12
unfolding init_msg Handler.rq_wait Handler.read_bytes
version_call = refl

security_call : init_msg no_des no_ms versioned.session (2 ∷ 77 ∷ 1 ∷ []) 0 ≡ got chosen 3
unfolding init_msg Handler.rq_wait Handler.read Handler.read_bytes
security_call = refl

authentication_call : init_msg no_des no_ms chosen.session [] 0 ≡ got proved 0
unfolding init_msg
authentication_call = refl

result_call : init_msg no_des no_ms proved.session (0 ∷ 0 ∷ 0 ∷ 0 ∷ []) 0 ≡ got accepted 4
unfolding init_msg Handler.rq_wait Handler.read
result_call = refl

client_call : init_msg no_des no_ms accepted.session [] 0 ≡ got initialised 0
unfolding init_msg
client_call = refl

server_call : init_msg no_des no_ms initialised.session server_bytes 0 ≡ got in_it 25
unfolding init_msg Handler.rq_wait Handler.read Handler.read_bytes Handler.skip decode_utf8
server_call = refl

abbrev whole_run : Run no_des no_ms fresh in_it.session
whole_run =
    calls initialised.session server_bytes in_it 25
      (calls accepted.session [] initialised 0
        (calls proved.session (0 ∷ 0 ∷ 0 ∷ 0 ∷ []) accepted 4
          (calls chosen.session [] proved 0
            (calls versioned.session (2 ∷ 77 ∷ 1 ∷ []) chosen 3
              (calls fresh version_bytes versioned 12 begins version_call) security_call)
            authentication_call)
          result_call)
        client_call)
      server_call

in_it-connected : in_it.session.connected ≡ true
unfolding joined
in_it-connected = refl

connected-IsAccepted_example : IsAccepted no_des no_ms whole_run
connected-IsAccepted_example =
    connected-IsAccepted no_des no_ms fresh in_it.session whole_run refl refl in_it-connected
