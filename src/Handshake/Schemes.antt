-- ===== src/Handshake/Schemes.antt =====
-- The schemes of authentication of rfb.js. The DES of VNC authentication, and the key exchange and ciphers of
-- MS-Logon II, are the parameters `gen_des` and `ms_logon_ii`.
use warpyard.Base.{
  ℕ, zero, suc, ◌*◌, ◌%◌, ◌&&◌, Option, none, some, List, [], ◌∷◌, ◌++◌, map, length, ◌==◌,
  if◌then◌else◌,
}
use warpyard.Stream.Handler.{
  fault, Handler, ◌>>=◌, ◌>>◌, give, rq_wait, read8, read16, read32, read_bytes,
}
use warpyard.Utf8.{encode_utf8}
use warpyard.Handshake.{
  Session, Step, Action, username_field, password_field, security_result, puts, requires,
  begins_ard, begins_ra2, go_on, stop, fail, before, rq_wait_after,
}
use warpyard.Handshake.Security.{vencrypt_type, is_supported_security_type}
use warpyard.Handshake.Tight.{bytes_of}

-- `sQpushString`: a character that is no byte loses what is above its lowest eight bits.
abbrev pub pushed : List ℕ → List ℕ
pushed text = map (λ c. c % 256) text

-- A text as bytes, or the error of `encodeUTF8`.
abbrev pub encoded : {A : Type 0} → Option (List ℕ) → (List ℕ → Handler A) → Handler A
encoded none k q i = fault
encoded (some bytes) k q i = k bytes q i

-- The credentials that a scheme needs, or else the event that asks for them.
abbrev pub with_both :
    Session → Option (List ℕ) → Option (List ℕ) → (List ℕ → List ℕ → Handler Step) → Handler Step
with_both s (some username) (some password) k = k username password
with_both s (some username) none k =
    give (stop s (requires (username_field ∷ password_field ∷ []) ∷ []))
with_both s none password k = give (stop s (requires (username_field ∷ password_field ∷ []) ∷ []))

abbrev pub proved : Session → List ℕ → Step
proved s bytes = go_on (record s { init_state = security_result }) (puts bytes ∷ [])

unfoldable pub negotiate_plain_auth : Session → Handler Step
negotiate_plain_auth s =
    with_both s s.credentials.username s.credentials.password λ username password.
      encoded (encode_utf8 username) λ user. encoded (encode_utf8 password) λ pass.
        give (
          proved s (bytes_of (length user) ++ bytes_of (length pass) ++ pushed user ++ pushed pass))

unfoldable pub negotiate_tight_unix_auth : Session → Handler Step
negotiate_tight_unix_auth s =
    with_both s s.credentials.username s.credentials.password λ username password. give (
      proved s (
        bytes_of (length username)
        ++ bytes_of (length password)
        ++ pushed username
        ++ pushed password))

-- With the results of the key exchange, if they are there.
abbrev pub ard_results : Session → Option (List ℕ) → Option (List ℕ) → Handler Step → Handler Step
ard_results s (some public_key) (some credentials) k = give (
    proved
      (record s {
        credentials = record s.credentials { ard_public_key = none; ard_credentials = none };
      })
      (credentials ++ public_key))
ard_results s (some public_key) none k = k
ard_results s none credentials k = k

-- After the key exchange has begun, `_resumeAuthentication` calls `_initMsg` when it is done.
unfoldable pub begin_ard : Session → Handler Step
begin_ard s = do
  rq_wait 4 0
  generator ← read_bytes 2
  key_length ← read16
  rq_wait (key_length * 2) 4
  prime ← read_bytes key_length
  server_public_key ← read_bytes key_length
  give (stop s (begins_ard generator prime server_public_key ∷ []))

unfoldable pub negotiate_ard_auth : Session → Handler Step
unfolding begin_ard
negotiate_ard_auth s =
    with_both s s.credentials.username s.credentials.password λ username password.
      ard_results s s.credentials.ard_public_key s.credentials.ard_credentials (begin_ard s)

-- The first of the subtypes that is supported, but for VeNCrypt itself.
unfoldable pub first_subtype : List ℕ → Option ℕ
first_subtype [] = none
first_subtype (type ∷ subtypes) =
    if type == vencrypt_type
    then first_subtype subtypes
    else if is_supported_security_type type
    then some type
    else first_subtype subtypes

unfoldable pub read_subtypes : ℕ → Handler (List ℕ)
read_subtypes zero = give []
read_subtypes (suc n) = do type ← read32; subtypes ← read_subtypes n; give (type ∷ subtypes)

abbrev pub choose_subtype : Session → Option ℕ → Step
choose_subtype s none = fail (record s { auth_scheme = none }) []
choose_subtype s (some type) =
    go_on (record s { auth_scheme = some type; vencrypt_state = 4 }) (puts (bytes_of type) ∷ [])

-- The parts of `_negotiateVeNCryptAuth` from each of its states on, with what was done in those before.
-- In a state past them nothing is done, and there is no return.
unfoldable pub vencrypt_subtypes : Session → List Action → Handler Step
unfolding first_subtype read_subtypes
vencrypt_subtypes s es =
    if s.vencrypt_state == 3
    then rq_wait_after (4 * s.vencrypt_subtypes_length) 0 (stop s es) (do
      subtypes ← read_subtypes s.vencrypt_subtypes_length
      give (before es (choose_subtype s (first_subtype subtypes))))
    else give (stop s es)

unfoldable pub vencrypt_length : Session → List Action → Handler Step
unfolding vencrypt_subtypes
vencrypt_length s es =
    if s.vencrypt_state == 2
    then rq_wait_after 1 0 (stop s es) (do
      subtypes_length ← read8
      if subtypes_length == 0
          then give (fail s es)
          else vencrypt_subtypes
              (record s { vencrypt_subtypes_length = subtypes_length; vencrypt_state = 3 }) es)
    else vencrypt_subtypes s es

unfoldable pub vencrypt_ack : Session → List Action → Handler Step
unfolding vencrypt_length
vencrypt_ack s es =
    if s.vencrypt_state == 1
    then rq_wait_after 1 0 (stop s es) (do
      res ← read8
      if res == 0 then vencrypt_length (record s { vencrypt_state = 2 }) es else give (fail s es))
    else vencrypt_length s es

unfoldable pub negotiate_vencrypt_auth : Session → Handler Step
unfolding vencrypt_ack
negotiate_vencrypt_auth s =
    if s.vencrypt_state == 0
    then (do
      rq_wait 2 0
      major ← read8
      minor ← read8
      if major == 0 && minor == 2
          then vencrypt_ack (record s { vencrypt_state = 1 }) (puts (0 ∷ 2 ∷ []) ∷ [])
          else give (fail s []))
    else vencrypt_ack s []

-- Until `negotiateRA2neAuthAsync` has ended.
abbrev pub negotiate_ra2ne_auth : Session → Handler Step
negotiate_ra2ne_auth s = give (stop s (begins_ra2 ∷ []))

-- With its end, "SecurityResult".
abbrev pub ra2ne_ended : Session → Session
ra2ne_ended s = record s { init_state = security_result }
