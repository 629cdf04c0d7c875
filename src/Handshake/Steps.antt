-- ===== src/Handshake/Steps.antt =====
-- The moves between the init states of rfb.js, of `_initMsg`.
use warpyard.Base.{
  ℕ, Bool, true, false, Option, none, some, List, [], ◌≡◌, refl, sym, ap, subst, ◌∙◌, inl, arith,
  take, leb, ◌==◌, if◌then◌else◌,
}
use warpyard.Stream.{Stream, big_endian}
use warpyard.Stream.Handler.{Handler, give}
use warpyard.Handshake.{
  InitState, protocol_version, security, authentication, security_result, security_reason,
  client_initialisation, server_initialisation, Session, Step, go_on,
}
use warpyard.Handshake.Always.{Holds, Always, give-Always, if-Always}
use warpyard.Handshake.Security.{
  none_type, vnc_auth_type, ra2ne_type, tight_type, vencrypt_type, xvp_type, ard_type,
  ms_logon_ii_type, unix_logon_type, plain_type,
}
use warpyard.Handshake.Authentication.{negotiate_authentication, of_scheme}
use warpyard.Handshake.Joining.{init_msg, by_state}
use warpyard.Handshake.Kept.{
  negotiate_plain_auth-Stays, negotiate_tight_unix_auth-Stays, negotiate_ard_auth-Stays,
  negotiate_std_vnc_auth-Stays, xvp_named-Stays, negotiate_ms_logon_ii_auth-Stays,
}
use warpyard.Handshake.Passes.{negotiate_vencrypt_auth-Stays, negotiate_tight_auth-Stays}
use warpyard.Handshake.Order.{
  give-Goes, stays-Goes, version-Goes, security-Goes, reason-Goes, client-Goes, server-Goes,
  Stays-scheme, result-Goes,
}
use warpyard.Handshake.Moves.{Moves, stays, needs_none, proves, Goes}

module _ (gen_des : (password challenge : List ℕ) → List ℕ)
    (ms_logon_ii : (g p a username password : List ℕ) → List ℕ) where
  none-Goes :
      (s : Session) (word : ℕ)
      → s.auth_scheme ≡ some none_type
      → (b : Bool) → leb 38 s.rfb_version ≡ b
      → Goes s word authentication (
          go_on (record s { init_state = if b then security_result else client_initialisation }) [])
  none-Goes s word scheme true e = (proves, inl refl)
  none-Goes s word scheme false e = (needs_none scheme (ground (arith, e)), inl refl)

  scheme-Goes :
      (s : Session) (word : ℕ)
      → s.init_state ≡ authentication
      → (o : Option ℕ) → s.auth_scheme ≡ o
      → Always (Goes s word authentication) (of_scheme gen_des ms_logon_ii s o)
  scheme-Goes s word i none e = give-Goes s word authentication _ refl (
      subst (λ b. Moves s.auth_scheme s.rfb_version word authentication b) (sym i)
        (stays authentication))
  scheme-Goes s word i (some scheme) e =
      let by = if-Always (Goes s word authentication) in
      let kept = Stays-scheme s word in
      by_none (scheme == none_type) refl (
        by (scheme == xvp_type) _ _
          (kept _ i (
            xvp_named-Stays s gen_des ms_logon_ii s.credentials.username s.credentials.password
              s.credentials.target))
          (by (scheme == ard_type) _ _ (kept _ i (negotiate_ard_auth-Stays s)) (
            by (scheme == vnc_auth_type) _ _
              (kept _ i (negotiate_std_vnc_auth-Stays s gen_des ms_logon_ii s refl refl))
              (by (scheme == tight_type) _ _ (kept _ i (negotiate_tight_auth-Stays s)) (
                by (scheme == vencrypt_type) _ _ (kept _ i (negotiate_vencrypt_auth-Stays s)) (
                  by (scheme == plain_type) _ _ (kept _ i (negotiate_plain_auth-Stays s)) (
                    by (scheme == unix_logon_type) _ _
                      (kept _ i (negotiate_tight_unix_auth-Stays s))
                      (by (scheme == ra2ne_type) _ _ (stays-Goes s word authentication _ refl i) (
                        by (scheme == ms_logon_ii_type) _ _
                          (kept _ i (negotiate_ms_logon_ii_auth-Stays s gen_des ms_logon_ii))
                          (stays-Goes s word authentication _ refl i))))))))))
    where
      by_none :
          (b : Bool) {k : Handler Step}
          → (scheme == none_type) ≡ b
          → Always (Goes s word authentication) k
          → Always (Goes s word authentication) (
              if b
              then give (
                  go_on
                    (record s {
                      init_state =
                          if leb 38 s.rfb_version then security_result else client_initialisation;
                    })
                    [])
              else k)
      by_none false e' always = always
      by_none true e' always =
          give-Always (Goes s word authentication) _ (
            none-Goes s word (e ∙ ap (λ n. some n) (ground (arith, e'))) (leb 38 s.rfb_version)
              refl)

  -- Every step of `_initMsg` is one of these.
  pub init_msg-Goes :
      (s : Session) (q : Stream)
      → Holds (Goes s (big_endian (take 4 q)) s.init_state) (init_msg gen_des ms_logon_ii s q 0)
  unfolding init_msg negotiate_authentication
  init_msg-Goes s q = from_state s.init_state refl
    where
      from_state :
          (a : InitState)
          → s.init_state ≡ a
          → Holds (Goes s (big_endian (take 4 q)) a) (by_state gen_des ms_logon_ii s a q 0)
      from_state protocol_version i = (version-Goes s (big_endian (take 4 q)) i).holds q 0
      from_state security i = (security-Goes s (big_endian (take 4 q)) i).holds q 0
      from_state authentication i =
          (scheme-Goes s (big_endian (take 4 q)) i s.auth_scheme refl).holds q 0
      from_state security_result i = result-Goes s (big_endian (take 4 q)) q i refl
      from_state security_reason i = (reason-Goes s (big_endian (take 4 q)) i).holds q 0
      from_state client_initialisation i = (client-Goes s (big_endian (take 4 q))).holds q 0
      from_state server_initialisation i = (server-Goes s (big_endian (take 4 q)) i).holds q 0
