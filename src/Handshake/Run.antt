-- ===== src/Handshake/Run.antt =====
-- Runs of the connecting phase of rfb.js: calls of `_initMsg`, credentials that the page sets, and the end of
-- RSA-AES authentication.
use warpyard.Base.{ℕ, ◌<◌, true, false, some, List, ◌≡◌, refl, sym, subst, ◌∙◌, ◌⊎◌, inl, inr, take}
use warpyard.Stream.{Stream, big_endian}
use warpyard.Stream.Handler.{got}
use warpyard.Handshake.{
  InitState, protocol_version, authentication, security_result, client_initialisation,
  server_initialisation, Session, Step, Credentials,
}
use warpyard.Handshake.Always.{Holds}
use warpyard.Handshake.Security.{none_type}
use warpyard.Handshake.Schemes.{ra2ne_ended}
use warpyard.Handshake.Joining.{init_msg}
use warpyard.Handshake.Steps.{init_msg-Goes}
use warpyard.Handshake.Moves.{
  Moves, stays, agrees, chooses, offers_nothing, needs_none, proves, accepts, rejects, initialises,
  Goes,
}

module _ (gen_des : (password challenge : List ℕ) → List ℕ)
    (ms_logon_ii : (g p a username password : List ℕ) → List ℕ) where
  -- Backwards from where it has come to. Any bytes may be in the queue at a call.
  pub data Run (s : Session) : Session → Type 0 where
    begins : Run s s
    calls :
        (t : Session) (q : Stream) (r : Step) (taken : ℕ)
        → Run s t
        → init_msg gen_des ms_logon_ii t q 0 ≡ got r taken
        → Run s r.session
    sets_credentials :
        (t : Session) (c : Credentials) → Run s t → Run s (record t { credentials = c })
    ends_ra2ne : (t : Session) → Run s t → Run s (ra2ne_ended t)

  -- The server says that authentication has succeeded, or it asks for none in a version without a result.
  abbrev pub Accepts : Session → Stream → Type 0
  Accepts t q =
      ((t.init_state ≡ security_result) × (big_endian (take 4 q) ≡ 0))
      ⊎ ((t.init_state ≡ authentication) × (t.auth_scheme ≡ some none_type) × (t.rfb_version < 38))

  -- It did so in a call of the run.
  abbrev pub IsAccepted : {s t : Session} → Run s t → Type 0
  IsAccepted begins = ⊥
  IsAccepted (calls t q r taken run e) = IsAccepted run ⊎ Accepts t q
  IsAccepted (sets_credentials t c run) = IsAccepted run
  IsAccepted (ends_ra2ne t run) = IsAccepted run

  -- Past authentication.
  abbrev IsPast : InitState → Type 0
  IsPast client_initialisation = Unit {0}
  IsPast server_initialisation = Unit {0}
  IsPast _ = ⊥

  abbrev IsIn : Session → Type 0
  IsIn t = (t.connected ≡ true) ⊎ IsPast t.init_state

  Moves-IsAccepted :
      (t : Session) (q : Stream) (a b : InitState)
      → Moves t.auth_scheme t.rfb_version (big_endian (take 4 q)) a b
      → t.init_state ≡ a
      → IsPast b
      → IsPast a ⊎ Accepts t q
  Moves-IsAccepted t q a b (stays c) i past = inl past
  Moves-IsAccepted t q a b agrees i past = absurd past
  Moves-IsAccepted t q a b chooses i past = absurd past
  Moves-IsAccepted t q a b offers_nothing i past = absurd past
  Moves-IsAccepted t q a b (needs_none scheme below) i past = inr (inr (i, scheme, below))
  Moves-IsAccepted t q a b proves i past = absurd past
  Moves-IsAccepted t q a b (accepts zero_word) i past = inr (inl (i, zero_word))
  Moves-IsAccepted t q a b rejects i past = absurd past
  Moves-IsAccepted t q a b initialises i past = inl tt

  before_server : (t : Session) → t.init_state ≡ server_initialisation → IsIn t
  before_server t i = inr (subst IsPast (sym i) tt)

  step-IsAccepted :
      (t : Session) (q : Stream) (r : Step)
      → Goes t (big_endian (take 4 q)) t.init_state r
      → IsIn r.session
      → IsIn t ⊎ Accepts t q
  step-IsAccepted t q r (m, inr server) is_in = inl (before_server t server)
  step-IsAccepted t q r (m, inl same) (inl connected) = inl (inl (sym same ∙ connected))
  step-IsAccepted t q r (m, inl same) (inr past) =
      from_move (Moves-IsAccepted t q t.init_state r.session.init_state m refl past)
    where
      from_move : IsPast t.init_state ⊎ Accepts t q → IsIn t ⊎ Accepts t q
      from_move (inl p) = inl (inr p)
      from_move (inr a) = inr a

  run-IsAccepted : (s t : Session) (run : Run s t) → (IsIn s → ⊥) → IsIn t → IsAccepted run
  run-IsAccepted s t begins fresh is_in = fresh is_in
  run-IsAccepted s t (sets_credentials u c run) fresh is_in = run-IsAccepted s u run fresh is_in
  run-IsAccepted s t (ends_ra2ne u run) fresh (inl connected) =
      run-IsAccepted s u run fresh (inl connected)
  run-IsAccepted s t (ends_ra2ne u run) fresh (inr past) = absurd past
  run-IsAccepted s t (calls u q r taken run e) fresh is_in =
      from_step
        (step-IsAccepted u q r
          (subst (Holds (Goes u (big_endian (take 4 q)) u.init_state)) e
            (init_msg-Goes gen_des ms_logon_ii u q))
          is_in)
        (run-IsAccepted s u run fresh)
    where
      from_step : IsIn u ⊎ Accepts u q → (IsIn u → IsAccepted run) → IsAccepted run ⊎ Accepts u q
      from_step (inl before) rest = inl (rest before)
      from_step (inr a) rest = inr a

  -- No run from the first state of a client that is not connected comes to a connected one, unless in one of
  -- its calls of `_initMsg` the server answered authentication with the number 0, or the scheme was the one
  -- without authentication in a version below 3.8, which has no such answer. The credentials may be set
  -- at any time, RSA-AES authentication may end at any time, and any bytes may be in the queue.
  pub connected-IsAccepted :
      (s t : Session) (run : Run s t)
      → s.init_state ≡ protocol_version
      → s.connected ≡ false
      → t.connected ≡ true
      → IsAccepted run
  connected-IsAccepted s t run first apart connected = run-IsAccepted s t run fresh (inl connected)
    where
      fresh : IsIn s → ⊥
      fresh (inl c) = absurd (cc (c, apart))
      fresh (inr past) = subst IsPast first past
