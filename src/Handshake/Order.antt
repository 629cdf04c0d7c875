-- ===== src/Handshake/Order.antt =====
-- The moves between the init states of rfb.js, of the handlers below `_initMsg`.
use warpyard.Base.{
  ℕ, ◌+◌, ◌*◌, Bool, true, false, Option, none, some, List, [], ◌∷◌, ◌≡◌, refl, sym, ap, subst, ◌∙◌,
  ◌⊎◌, inl, inr, arith, take, drop, ltb, leb, ◌==◌, if◌then◌else◌, Bool-cases,
}
use warpyard.Stream.{Stream, big_endian}
use warpyard.Stream.Handler.{
  Answer, waits, fault, got, Handler, ◌>>=◌, give, rq_wait, read, read_bytes, skip,
}
use warpyard.Utf8.{decode_utf8}
use warpyard.Handshake.{
  InitState, protocol_version, security, authentication, security_result, security_reason,
  client_initialisation, server_initialisation, Session, Step, Credentials, Context, go_on, stop,
  fail,
}
use warpyard.Handshake.Always.{
  Holds, Always, give-Always, fault-Always, if-Always, bind-Always, bind-Holds, rq_wait-got,
  read-got,
}
use warpyard.Handshake.Version.{
  negotiate_protocol_version, Offer, repeater, version, unknown, answer_version, offered,
}
use warpyard.Handshake.Security.{
  negotiate_security, choose_of, choose, first_supported, handle_security_result, judged,
  handle_security_reason, refuse,
}
use warpyard.Handshake.Joining.{by_state, negotiate_server_init, joined, named, past_capabilities}
use warpyard.Handshake.Kept.{Stays}
use warpyard.Handshake.Moves.{
  Goes, Moves, accepts, agrees, chooses, initialises, offers_nothing, proves, rejects, stays,
}

module _ (s : Session) (word : ℕ) where
  pub give-Goes :
      (a : InitState) (r : Step)
      → r.session.connected ≡ s.connected
      → Moves s.auth_scheme s.rfb_version word a r.session.init_state
      → Always (Goes s word a) (give r)
  give-Goes a r c m = give-Always (Goes s word a) r (m, inl c)

  pub stays-Goes :
      (a : InitState) (r : Step)
      → r.session.connected ≡ s.connected
      → r.session.init_state ≡ a
      → Always (Goes s word a) (give r)
  stays-Goes a r c i =
      give-Goes a r c (subst (λ b. Moves s.auth_scheme s.rfb_version word a b) (sym i) (stays a))

  pub version-Goes :
      s.init_state ≡ protocol_version
      → Always (Goes s word protocol_version) (negotiate_protocol_version s)
  unfolding negotiate_protocol_version
  version-Goes i = bind-Always (Goes s word protocol_version) (rq_wait 12 0) _ λ u.
      bind-Always (Goes s word protocol_version) (read_bytes 12) _
        λ text. answered (offered (take 7 (drop 4 text)))
    where
      answered : (o : Offer) → Always (Goes s word protocol_version) (give (answer_version s o))
      answered repeater = stays-Goes protocol_version _ refl i
      answered unknown = stays-Goes protocol_version _ refl i
      answered (version v) = give-Goes protocol_version _ refl agrees

  pub security-Goes : s.init_state ≡ security → Always (Goes s word security) (negotiate_security s)
  unfolding negotiate_security choose_of
  security-Goes i =
      if-Always (Goes s word security) (leb 37 s.rfb_version) _ _
        (bind-Always (Goes s word security) (read 1) _ λ n.
          bind-Always (Goes s word security) (rq_wait n 1) _ λ u.
            if-Always (Goes s word security) (n == 0) _ _ (give-Goes security _ refl offers_nothing)
              (bind-Always (Goes s word security) (read_bytes n) _
                λ types. chosen (first_supported types)))
        (bind-Always (Goes s word security) (rq_wait 4 0) _ λ u.
          bind-Always (Goes s word security) (read 4) _ λ scheme. decision scheme (scheme == 0))
    where
      chosen : (o : Option ℕ) → Always (Goes s word security) (give (choose s o))
      chosen none = stays-Goes security _ refl i
      chosen (some type) = give-Goes security _ refl chooses

      decision :
          (scheme : ℕ) (b : Bool)
          → Always (Goes s word security) (
              give (
                if b
                then go_on
                    (record s {
                      auth_scheme = some scheme;
                      init_state = security_reason;
                      security_context = warpyard.Handshake.authentication_scheme;
                      security_status = 1;
                    })
                    []
                else go_on
                    (record s { auth_scheme = some scheme; init_state = authentication })
                    []))
      decision scheme true = give-Goes security _ refl offers_nothing
      decision scheme false = give-Goes security _ refl chooses

  pub reason-Goes :
      s.init_state ≡ security_reason
      → Always (Goes s word security_reason) (handle_security_reason s)
  unfolding handle_security_reason
  reason-Goes i = bind-Always (Goes s word security_reason) (rq_wait 4 0) _ λ u.
      bind-Always (Goes s word security_reason) (read 4) _ λ n.
        if-Always (Goes s word security_reason) (ltb 0 n) _ _
          (bind-Always (Goes s word security_reason) (rq_wait n 4) _
            λ u'. bind-Always (Goes s word security_reason) (read_bytes n) _ refused)
          (refused [])
    where
      refused : (reason : List ℕ) → Always (Goes s word security_reason) (give (refuse s reason))
      refused [] = stays-Goes security_reason _ refl i
      refused (c ∷ reason) = stays-Goes security_reason _ refl i

  judged-Goes :
      (status : ℕ)
      → s.init_state ≡ security_result
      → word ≡ status
      → Goes s word security_result (judged s status)
  judged-Goes status i e = by_status (Bool-cases (status == 0)) (leb 38 s.rfb_version)
    where
      kept :
          (r : Step)
          → r.session.connected ≡ s.connected
          → r.session.init_state ≡ security_result
          → Goes s word security_result r
      kept r c i' = (
        subst (λ b. Moves s.auth_scheme s.rfb_version word security_result b) (sym i')
            (stays security_result),
        inl c,
      )

      rejected :
          (b : Bool)
          → Goes s word security_result (
              if b
              then go_on
                  (record s {
                    init_state = security_reason;
                    security_context = warpyard.Handshake.result_context;
                    security_status = status;
                  })
                  []
              else fail s (warpyard.Handshake.refuses status none ∷ []))
      rejected true = (rejects, inl refl)
      rejected false = kept (fail s (warpyard.Handshake.refuses status none ∷ [])) refl i

      by_status :
          ((status == 0) ≡ true) ⊎ ((status == 0) ≡ false)
          → (b : Bool) → Goes s word security_result (judged s status)
      by_status (inl t) b = rw t (accepts (e ∙ ground (arith, t)), inl refl)
      by_status (inr f) b = rw f (rejected (leb 38 s.rfb_version))

  pub client-Goes :
      Always
        (Goes s word client_initialisation)
        (by_state (λ p c. []) (λ g p a u c. []) s client_initialisation)
  client-Goes = give-Goes client_initialisation _ refl initialises

  -- Only here it may connect.
  named-Goes :
      (o : Option (List ℕ)) (width height : ℕ)
      → s.init_state ≡ server_initialisation
      → Always (Goes s word server_initialisation) (named o (joined s width height))
  unfolding joined
  named-Goes none width height i = fault-Always (Goes s word server_initialisation)
  named-Goes (some name) width height i = give-Always (Goes s word server_initialisation) _ (
    subst (λ b. Moves s.auth_scheme s.rfb_version word server_initialisation b) (sym i)
        (stays server_initialisation),
    inr refl,
  )

  past-Goes :
      (b : Bool) (n : ℕ) (next : Handler Step)
      → Always (Goes s word server_initialisation) next
      → Always (Goes s word server_initialisation) (past_capabilities b n next)
  unfolding past_capabilities
  past-Goes false n next always = always
  past-Goes true n next always =
      let G = Goes s word server_initialisation in
      bind-Always G (rq_wait 8 (24 + n)) _ λ u. bind-Always G (read 2) _ λ a.
        bind-Always G (read 2) _ λ b. bind-Always G (read 2) _ λ c. bind-Always G (skip 2) _ λ u1.
          bind-Always G (rq_wait ((a + b + c) * 16) (32 + n)) _ λ u2.
            bind-Always G (skip (16 * a)) _ λ u3.
              bind-Always G (skip (16 * b)) _ λ u4. bind-Always G (skip (16 * c)) _ λ u5. always

  pub server-Goes :
      s.init_state ≡ server_initialisation
      → Always (Goes s word server_initialisation) (negotiate_server_init s)
  unfolding negotiate_server_init
  server-Goes i =
      let G = Goes s word server_initialisation in
      bind-Always G (rq_wait 24 0) _ λ u. bind-Always G (read 2) _ λ width.
        bind-Always G (read 2) _ λ height. bind-Always G (read 1) _ λ a1.
          bind-Always G (read 1) _ λ a2. bind-Always G (read 1) _ λ a3.
            bind-Always G (read 1) _ λ a4. bind-Always G (read 2) _ λ a5.
              bind-Always G (read 2) _ λ a6. bind-Always G (read 2) _ λ a7.
                bind-Always G (read 1) _ λ a8. bind-Always G (read 1) _ λ a9.
                  bind-Always G (read 1) _ λ b1. bind-Always G (skip 3) _ λ u1.
                    bind-Always G (read 4) _ λ n. bind-Always G (rq_wait n 24) _ λ u2.
                      bind-Always G (read_bytes n) _ λ text.
                        past-Goes s.tight_vnc n _
                          (named-Goes (decode_utf8 text true) width height i)

  -- A scheme does so too.
  Stays-Goes : (r : Step) → s.init_state ≡ authentication → Stays s r → Goes s word authentication r
  Stays-Goes r i (c, inl same) = (
    subst (λ b. Moves s.auth_scheme s.rfb_version word authentication b) (sym (same ∙ i))
        (stays authentication),
    inl c,
  )
  Stays-Goes r i (c, inr result) = (
    subst (λ b. Moves s.auth_scheme s.rfb_version word authentication b) (sym result) proves,
    inl c,
  )

  pub Stays-scheme :
      (h : Handler Step)
      → s.init_state ≡ authentication
      → Always (Stays s) h
      → Always (Goes s word authentication) h
  Stays-scheme h i always = record { holds = λ q j. weaken (h q j) (always.holds q j) }
    where
      weaken : (a : Answer Step) → Holds (Stays s) a → Holds (Goes s word authentication) a
      weaken (waits p) k = tt
      weaken fault k = tt
      weaken (got r j) k = Stays-Goes r i k

  pub result-Goes :
      (q : Stream)
      → s.init_state ≡ security_result
      → word ≡ big_endian (take 4 q)
      → Holds (Goes s word security_result) (handle_security_result s q 0)
  unfolding handle_security_result
  result-Goes q i e =
      let G = Goes s word security_result in
      bind-Holds G (rq_wait 4 0) (λ u. read 4 >>= λ status. give (judged s status)) q 0
        λ u j waited.
          bind-Holds G (read 4) (λ status. give (judged s status)) q j
            λ status k took. judged-Goes status i (
              e
              ∙ ap (λ l. big_endian (take 4 (drop l q))) (rq_wait-got 4 0 q 0 u j waited)
              ∙ read-got 4 q j status k took)
