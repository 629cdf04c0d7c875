-- ===== src/Handshake/Kept.antt =====
-- Where the schemes of authentication of rfb.js leave the init state.
use warpyard.Base.{
  ℕ, ◌*◌, ◌%◌, Option, none, some, List, [], ◌∷◌, ◌++◌, length, inl, inr, ◌⊎◌, ◌≡◌, refl,
}
use warpyard.Stream.Handler.{Answer, waits, fault, got, Handler, give, rq_wait, read, read_bytes}
use warpyard.Utf8.{encode_utf8}
use warpyard.Handshake.{security_result, Session, Step, before, puts}
use warpyard.Handshake.Always.{
  Holds, Always, give-Always, fault-Always, bind-Always, rq_wait_after-Always,
}
use warpyard.Handshake.Security.{vnc_auth_type}
use warpyard.Handshake.Schemes.{
  negotiate_plain_auth, negotiate_tight_unix_auth, negotiate_ard_auth, with_both, encoded, proved,
  ard_results, begin_ard, pushed,
}
use warpyard.Handshake.Authentication.{
  negotiate_std_vnc_auth, answer_challenge, xvp_named, negotiate_ms_logon_ii_auth,
  answer_ms_logon_ii,
}

-- The step does not connect, and leaves the init state or waits for the result.
abbrev pub Stays : Session → Step → Type 0
Stays s r =
    (r.session.connected ≡ s.connected)
    × ((r.session.init_state ≡ s.init_state) ⊎ (r.session.init_state ≡ security_result))

module _ (s : Session) where
  -- A step to a state that differs in neither.
  pub give-Stays :
      (r : Step)
      → r.session.connected ≡ s.connected
      → r.session.init_state ≡ s.init_state
      → Always (Stays s) (give r)
  give-Stays r c i = give-Always (Stays s) r (c, inl i)

  proved-Stays :
      (s' : Session) (bytes : List ℕ)
      → s'.connected ≡ s.connected
      → Always (Stays s) (give (proved s' bytes))
  proved-Stays s' bytes c = give-Always (Stays s) (proved s' bytes) (c, inr refl)

  with_both-Stays :
      (u p : Option (List ℕ)) (k : List ℕ → List ℕ → Handler Step)
      → ((username password : List ℕ) → Always (Stays s) (k username password))
      → Always (Stays s) (with_both s u p k)
  with_both-Stays none p k next = give-Stays _ refl refl
  with_both-Stays (some username) none k next = give-Stays _ refl refl
  with_both-Stays (some username) (some password) k next = next username password

  encoded-Stays :
      (o : Option (List ℕ)) (k : List ℕ → Handler Step)
      → ((bytes : List ℕ) → Always (Stays s) (k bytes))
      → Always (Stays s) (encoded o k)
  encoded-Stays none k next = fault-Always (Stays s)
  encoded-Stays (some bytes) k next = next bytes

  pub negotiate_plain_auth-Stays : Always (Stays s) (negotiate_plain_auth s)
  unfolding negotiate_plain_auth
  negotiate_plain_auth-Stays =
      with_both-Stays s.credentials.username s.credentials.password _ λ username password.
        encoded-Stays (encode_utf8 username) _
          λ user. encoded-Stays (encode_utf8 password) _ λ pass. proved-Stays s _ refl

  pub negotiate_tight_unix_auth-Stays : Always (Stays s) (negotiate_tight_unix_auth s)
  unfolding negotiate_tight_unix_auth
  negotiate_tight_unix_auth-Stays =
      with_both-Stays s.credentials.username s.credentials.password _
        λ username password. proved-Stays s _ refl

  ard_results-Stays :
      (u c : Option (List ℕ)) (k : Handler Step)
      → Always (Stays s) k
      → Always (Stays s) (ard_results s u c k)
  ard_results-Stays none c k next = next
  ard_results-Stays (some public_key) none k next = next
  ard_results-Stays (some public_key) (some credentials) k next =
      proved-Stays
        (record s {
          credentials = record s.credentials { ard_public_key = none; ard_credentials = none };
        })
        _ refl

  begin_ard-Stays : Always (Stays s) (begin_ard s)
  unfolding begin_ard
  begin_ard-Stays = bind-Always (Stays s) (rq_wait 4 0) _ λ u.
      bind-Always (Stays s) (read_bytes 2) _ λ generator.
        bind-Always (Stays s) (read 2) _ λ key_length.
          bind-Always (Stays s) (rq_wait (key_length * 2) 4) _ λ u'.
            bind-Always (Stays s) (read_bytes key_length) _
              λ prime. bind-Always (Stays s) (read_bytes key_length) _ λ key. give-Stays _ refl refl

  pub negotiate_ard_auth-Stays : Always (Stays s) (negotiate_ard_auth s)
  unfolding negotiate_ard_auth
  negotiate_ard_auth-Stays =
      with_both-Stays s.credentials.username s.credentials.password
        (λ username password.
          ard_results s s.credentials.ard_public_key s.credentials.ard_credentials (begin_ard s))
        (λ username password.
          ard_results-Stays s.credentials.ard_public_key s.credentials.ard_credentials (begin_ard s)
            begin_ard-Stays)

  pub negotiate_std_vnc_auth-Stays :
      (gen_des : (password challenge : List ℕ) → List ℕ)
      (ms : (g p a username password : List ℕ) → List ℕ) (s' : Session)
      → s'.connected ≡ s.connected
      → s'.init_state ≡ s.init_state
      → Always (Stays s) (negotiate_std_vnc_auth gen_des ms s')
  unfolding negotiate_std_vnc_auth
  negotiate_std_vnc_auth-Stays gen_des ms s' c i =
      rq_wait_after-Always (Stays s) 16 0 _ _ (c, inl i) (challenged s'.credentials.password)
    where
      challenged : (o : Option (List ℕ)) → Always (Stays s) (answer_challenge gen_des ms s' o)
      challenged none = give-Stays _ c i
      challenged (some password) =
          bind-Always (Stays s) (read_bytes 16) _ λ challenge. proved-Stays s' _ c

  pub xvp_named-Stays :
      (gen_des : (password challenge : List ℕ) → List ℕ)
      (ms : (g p a username password : List ℕ) → List ℕ) (u p t : Option (List ℕ))
      → Always (Stays s) (xvp_named gen_des ms s u p t)
  unfolding xvp_named
  xvp_named-Stays gen_des ms (some username) (some password) (some target) = record {
    holds = λ q i.
        named
          (negotiate_std_vnc_auth gen_des ms (record s { auth_scheme = some vnc_auth_type }) q i)
          (auth.holds q i);
  }
    where
      auth :
          Always
            (Stays s)
            (negotiate_std_vnc_auth gen_des ms (record s { auth_scheme = some vnc_auth_type }))
      auth = negotiate_std_vnc_auth-Stays gen_des ms _ refl refl

      named :
          (a : Answer Step)
          → Holds (Stays s) a
          → Holds (Stays s) (elim a as (λ _. Answer Step) [
            | waits p ↦ waits p
            | fault ↦ fault
            | got r j ↦
                got
                  (before
                    (puts (
                        (length username % 256) ∷ (length target % 256) ∷ pushed username
                        ++ pushed target)
                      ∷ [])
                    r)
                  j
          ])
      named (waits p) h = tt
      named fault h = tt
      named (got r j) h = h
  xvp_named-Stays gen_des ms (some username) (some password) none = give-Stays _ refl refl
  xvp_named-Stays gen_des ms (some username) none t = give-Stays _ refl refl
  xvp_named-Stays gen_des ms none p t = give-Stays _ refl refl

  answer_ms_logon_ii-Stays :
      (gen_des : (password challenge : List ℕ) → List ℕ)
      (ms : (g p a username password : List ℕ) → List ℕ) (username password : List ℕ)
      → Always (Stays s) (answer_ms_logon_ii gen_des ms s username password)
  unfolding answer_ms_logon_ii
  answer_ms_logon_ii-Stays gen_des ms username password =
      bind-Always (Stays s) (read_bytes 8) _ λ g. bind-Always (Stays s) (read_bytes 8) _ λ p.
        bind-Always (Stays s) (read_bytes 8) _ λ a.
          encoded-Stays (encode_utf8 username) _
            λ user. encoded-Stays (encode_utf8 password) _ λ pass. proved-Stays s _ refl

  pub negotiate_ms_logon_ii_auth-Stays :
      (gen_des : (password challenge : List ℕ) → List ℕ)
      (ms : (g p a username password : List ℕ) → List ℕ)
      → Always (Stays s) (negotiate_ms_logon_ii_auth gen_des ms s)
  unfolding negotiate_ms_logon_ii_auth
  negotiate_ms_logon_ii_auth-Stays gen_des ms = bind-Always (Stays s) (rq_wait 24 0) _ λ w.
      with_both-Stays s.credentials.username s.credentials.password
        (answer_ms_logon_ii gen_des ms s) (answer_ms_logon_ii-Stays gen_des ms)
