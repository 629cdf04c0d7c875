-- ===== src/Handshake/Passes.antt =====
-- Where the schemes of rfb.js that read in several passes, VeNCrypt and Tight, leave the init
-- state.
use warpyard.Base.{
  ℕ, ◌*◌, Bool, true, false, ◌&&◌, Option, none, some, List, [], ◌∷◌, ◌==◌, if◌then◌else◌, inl, inr,
  ◌≡◌, refl,
}
use warpyard.Stream.Handler.{give, rq_wait, read}
use warpyard.Handshake.{Session, Step, Action, stop, fail, before, puts}
use warpyard.Handshake.Always.{
  Always, give-Always, if-Always, bind-Always, then-Always, rq_wait_after-Always,
}
use warpyard.Handshake.Tight.{
  negotiate_tight_auth, negotiate_tight_tunnels, negotiate_sub_auth, choose_sub_auth, choose_tunnel,
  read_tunnels, read_capabilities, Tunnel, is_like, siemens_tunnel, tunnel_of, bytes_of, no_tunnel,
  has_text, no_auth_text, vnc_auth_text, unix_logon_text,
}
use warpyard.Handshake.Schemes.{
  negotiate_vencrypt_auth, vencrypt_ack, vencrypt_length, vencrypt_subtypes, choose_subtype,
  first_subtype, read_subtypes,
}
use warpyard.Handshake.Kept.{Stays, give-Stays}

module _ (s : Session) where
  vencrypt_subtypes-Stays :
      (s' : Session) (es : List Action)
      → s'.connected ≡ s.connected
      → s'.init_state ≡ s.init_state
      → Always (Stays s) (vencrypt_subtypes s' es)
  unfolding vencrypt_subtypes
  vencrypt_subtypes-Stays s' es c i =
      if-Always (Stays s) (s'.vencrypt_state == 3) _ _
        (rq_wait_after-Always (Stays s) _ 0 _ _ (c, inl i)
          (bind-Always (Stays s) (read_subtypes s'.vencrypt_subtypes_length) _
            λ subtypes. chosen (first_subtype subtypes)))
        (give-Stays s _ c i)
    where
      chosen : (o : Option ℕ) → Always (Stays s) (give (before es (choose_subtype s' o)))
      chosen none = give-Stays s _ c i
      chosen (some type) = give-Stays s _ c i

  vencrypt_length-Stays :
      (s' : Session) (es : List Action)
      → s'.connected ≡ s.connected
      → s'.init_state ≡ s.init_state
      → Always (Stays s) (vencrypt_length s' es)
  unfolding vencrypt_length
  vencrypt_length-Stays s' es c i =
      if-Always (Stays s) (s'.vencrypt_state == 2) _ _
        (rq_wait_after-Always (Stays s) 1 0 _ _ (c, inl i)
          (bind-Always (Stays s) (read 1) _ λ n.
            if-Always (Stays s) (n == 0) _ _ (give-Stays s _ c i) (
              vencrypt_subtypes-Stays
                (record s' { vencrypt_subtypes_length = n; vencrypt_state = 3 }) es c i)))
        (vencrypt_subtypes-Stays s' es c i)

  vencrypt_ack-Stays :
      (s' : Session) (es : List Action)
      → s'.connected ≡ s.connected
      → s'.init_state ≡ s.init_state
      → Always (Stays s) (vencrypt_ack s' es)
  unfolding vencrypt_ack
  vencrypt_ack-Stays s' es c i =
      if-Always (Stays s) (s'.vencrypt_state == 1) _ _
        (rq_wait_after-Always (Stays s) 1 0 _ _ (c, inl i)
          (bind-Always (Stays s) (read 1) _ λ res.
            if-Always (Stays s) (res == 0) _ _
              (vencrypt_length-Stays (record s' { vencrypt_state = 2 }) es c i)
              (give-Stays s _ c i)))
        (vencrypt_length-Stays s' es c i)

  pub negotiate_vencrypt_auth-Stays : Always (Stays s) (negotiate_vencrypt_auth s)
  unfolding negotiate_vencrypt_auth
  negotiate_vencrypt_auth-Stays =
      if-Always (Stays s) (s.vencrypt_state == 0) _ _
        (bind-Always (Stays s) (rq_wait 2 0) _ λ u. bind-Always (Stays s) (read 1) _ λ major.
          bind-Always (Stays s) (read 1) _ λ minor.
            if-Always (Stays s) (major == 0 && minor == 2) _ _
              (vencrypt_ack-Stays (record s { vencrypt_state = 1 }) (puts (0 ∷ 2 ∷ []) ∷ []) refl
                refl)
              (give-Stays s _ refl refl))
        (vencrypt_ack-Stays s [] refl refl)

  sub_auth-Stays :
      (s' : Session)
      → s'.connected ≡ s.connected
      → s'.init_state ≡ s.init_state
      → Always (Stays s) (negotiate_sub_auth s')
  unfolding negotiate_sub_auth choose_sub_auth
  sub_auth-Stays s' c i =
      rq_wait_after-Always (Stays s) 4 0 _ _ (c, inl i)
        (bind-Always (Stays s) (read 4) _ λ n.
          if-Always (Stays s) (n == 0) _ _ (give-Always (Stays s) _ (c, inr refl)) (
            rq_wait_after-Always (Stays s) _ 4 _ _ (c, inl i)
              (bind-Always (Stays s) (read_capabilities n) _
                λ texts. give-Always (Stays s) _ (chosen texts))))
    where
      if-Stays : (b : Bool) (r r' : Step) → Stays s r → Stays s r' → Stays s (if b then r else r')
      if-Stays true r r' h k = h
      if-Stays false r r' h k = k

      chosen : (texts : List (List ℕ)) → Stays s (choose_sub_auth s' texts)
      chosen texts =
          if-Stays (has_text no_auth_text texts) _ _ (c, inr refl)
            (if-Stays (has_text vnc_auth_text texts) _ _ (c, inl i)
              (if-Stays (has_text unix_logon_text texts) _ _ (c, inl i) (c, inl i)))

  tunnels-Stays :
      (n : ℕ) (s' : Session)
      → s'.connected ≡ s.connected
      → s'.init_state ≡ s.init_state
      → Always (Stays s) (negotiate_tight_tunnels n s')
  unfolding negotiate_tight_tunnels
  tunnels-Stays n s' c i = bind-Always (Stays s) (read_tunnels n) _ λ tunnels.
      chosen (
        if is_like siemens_tunnel (tunnel_of 1 tunnels)
        then some no_tunnel
        else tunnel_of 0 tunnels)
    where
      chosen : (o : Option Tunnel) → Always (Stays s) (give (choose_tunnel s' o))
      chosen none = give-Stays s _ c i
      chosen (some t) = by_name (is_like no_tunnel (some t))
        where
          by_name :
              (b : Bool)
              → Always (Stays s) (give (if b then stop s' (puts (bytes_of 0) ∷ []) else fail s' []))
          by_name true = give-Stays s _ c i
          by_name false = give-Stays s _ c i

  pub negotiate_tight_auth-Stays : Always (Stays s) (negotiate_tight_auth s)
  unfolding negotiate_tight_auth
  negotiate_tight_auth-Stays = if-Always (Stays s) s.tight_vnc _ _ (sub_auth-Stays s refl refl) (
      bind-Always (Stays s) (rq_wait 4 0) _ λ u. bind-Always (Stays s) (read 4) _ λ n.
        bind-Always (Stays s) (rq_wait (16 * n) 4) _ λ u'.
          if-Always (Stays s) (n == 0) _ _
            (sub_auth-Stays (record s { tight_vnc = true }) refl refl)
            (then-Always (Stays s) (Stays s)
              (negotiate_tight_tunnels n (record s { tight_vnc = true })) _
              (tunnels-Stays n (record s { tight_vnc = true }) refl refl)
              λ r same. give-Always (Stays s) _ same))
