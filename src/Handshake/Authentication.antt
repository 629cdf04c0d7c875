-- ===== src/Handshake/Authentication.antt =====
-- The schemes of rfb.js that encrypt, and the choice of the scheme by `_negotiateAuthentication`. The
-- ciphers of crypto/ are parameters.
use warpyard.Base.{
  ℕ, ◌%◌, Option, none, some, List, [], ◌∷◌, ◌++◌, length, leb, ◌==◌, if◌then◌else◌,
}
use warpyard.Stream.Handler.{Handler, ◌>>=◌, ◌>>◌, give, rq_wait, read_bytes}
use warpyard.Utf8.{encode_utf8}
use warpyard.Handshake.{
  Session, Step, Action, username_field, password_field, target_field, security_result,
  client_initialisation, puts, requires, go_on, stop, fail, before, rq_wait_after,
}
use warpyard.Handshake.Security.{
  none_type, vnc_auth_type, ra2ne_type, tight_type, vencrypt_type, xvp_type, ard_type,
  ms_logon_ii_type, unix_logon_type, plain_type,
}
use warpyard.Handshake.Tight.{negotiate_tight_auth}
use warpyard.Handshake.Schemes.{
  encoded, negotiate_ard_auth, negotiate_plain_auth, negotiate_ra2ne_auth,
  negotiate_tight_unix_auth, negotiate_vencrypt_auth, proved, pushed, with_both,
}

module _ (gen_des : (password challenge : List ℕ) → List ℕ)
    (ms_logon_ii : (g p a username password : List ℕ) → List ℕ) where
  abbrev pub answer_challenge : Session → Option (List ℕ) → Handler Step
  answer_challenge s none = give (stop s (requires (password_field ∷ []) ∷ []))
  answer_challenge s (some password) = do
    challenge ← read_bytes 16
    give (proved s (gen_des password challenge))

  unfoldable pub negotiate_std_vnc_auth : Session → Handler Step
  negotiate_std_vnc_auth s =
      rq_wait_after 16 0 (stop s []) (answer_challenge s s.credentials.password)

  -- What was done before a handler.
  abbrev pub doing : List Action → Handler Step → Handler Step
  doing es h = do r ← h; give (before es r)

  unfoldable pub xvp_named :
      Session → Option (List ℕ) → Option (List ℕ) → Option (List ℕ) → Handler Step
  unfolding negotiate_std_vnc_auth
  xvp_named s (some username) (some password) (some target) =
      doing
        (puts ((length username % 256) ∷ (length target % 256) ∷ pushed username ++ pushed target)
          ∷ [])
        (negotiate_std_vnc_auth (record s { auth_scheme = some vnc_auth_type }))
  xvp_named s (some username) (some password) none =
      give (stop s (requires (username_field ∷ password_field ∷ target_field ∷ []) ∷ []))
  xvp_named s (some username) none target =
      give (stop s (requires (username_field ∷ password_field ∷ target_field ∷ []) ∷ []))
  xvp_named s none password target =
      give (stop s (requires (username_field ∷ password_field ∷ target_field ∷ []) ∷ []))

  unfoldable pub answer_ms_logon_ii : Session → (username password : List ℕ) → Handler Step
  answer_ms_logon_ii s username password = do
    g ← read_bytes 8
    p ← read_bytes 8
    a ← read_bytes 8
    encoded (encode_utf8 username)
        λ user. encoded (encode_utf8 password) λ pass. give (proved s (ms_logon_ii g p a user pass))

  unfoldable pub negotiate_ms_logon_ii_auth : Session → Handler Step
  unfolding answer_ms_logon_ii
  negotiate_ms_logon_ii_auth s = do
    rq_wait 24 0
    with_both s s.credentials.username s.credentials.password (answer_ms_logon_ii s)

  -- By the scheme; -1 is no scheme.
  abbrev pub by_scheme : Session → ℕ → Handler Step
  by_scheme s scheme =
      if scheme == none_type
      then give (
          go_on
            (record s {
              init_state = if leb 38 s.rfb_version then security_result else client_initialisation;
            })
            [])
      else if scheme == xvp_type
      then xvp_named s s.credentials.username s.credentials.password s.credentials.target
      else if scheme == ard_type
      then negotiate_ard_auth s
      else if scheme == vnc_auth_type
      then negotiate_std_vnc_auth s
      else if scheme == tight_type
      then negotiate_tight_auth s
      else if scheme == vencrypt_type
      then negotiate_vencrypt_auth s
      else if scheme == plain_type
      then negotiate_plain_auth s
      else if scheme == unix_logon_type
      then negotiate_tight_unix_auth s
      else if scheme == ra2ne_type
      then negotiate_ra2ne_auth s
      else if scheme == ms_logon_ii_type
      then negotiate_ms_logon_ii_auth s
      else give (fail s [])

  abbrev pub of_scheme : Session → Option ℕ → Handler Step
  of_scheme s none = give (fail s [])
  of_scheme s (some scheme) = by_scheme s scheme

  unfoldable pub negotiate_authentication : Session → Handler Step
  unfolding xvp_named negotiate_ard_auth negotiate_std_vnc_auth negotiate_tight_auth
      negotiate_vencrypt_auth negotiate_plain_auth negotiate_tight_unix_auth
      negotiate_ms_logon_ii_auth
  negotiate_authentication s = of_scheme s s.auth_scheme
