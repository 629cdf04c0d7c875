-- ===== src/Handshake/Joining.antt =====
-- `_negotiateServerInit`, `_sendEncodings`, `_initMsg` and the loop of `_handleMessage` while connecting, of
-- rfb.js.
use warpyard.Base.{
  ℕ, ◌+◌, ◌-◌, ◌*◌, ◌^◌, Bool, true, false, Option, none, some, List, [], ◌∷◌, ◌++◌, ◌==◌,
  if◌then◌else◌,
}
use warpyard.Stream.Handler.{
  fault, got, Handler, ◌>>=◌, ◌>>◌, give, rq_wait, read8, read16, read32, read_bytes, skip,
}
use warpyard.Messages.Wire.{format, encodings, update_request}
use warpyard.Utf8.{decode_utf8}
use warpyard.Handshake.{
  InitState, protocol_version, security, authentication, security_result, security_reason,
  client_initialisation, server_initialisation, Session, Step, puts, sends, names_desktop, resizes,
  grabs, connects, go_on,
}
use warpyard.Handshake.Version.{same_text, negotiate_protocol_version}
use warpyard.Handshake.Security.{negotiate_security, handle_security_result, handle_security_reason}
use warpyard.Handshake.Authentication.{negotiate_authentication}

-- "Intel(r) AMT KVM"
abbrev pub amt_name : List ℕ
amt_name = 73 ∷ 110 ∷ 116 ∷ 101 ∷ 108 ∷ 40 ∷ 114 ∷ 41 ∷ 32 ∷ 65 ∷ 77 ∷ 84 ∷ 32 ∷ 75 ∷ 86 ∷ 77 ∷ []

-- A negative encoding as its pattern of 32 bits.
abbrev pub pseudo : ℕ → ℕ
pseudo n = 2 ^ 32 - n

-- `_sendEncodings`, in the order of preference.
unfoldable pub encodings_of : Session → List ℕ
encodings_of s =
    1 ∷ (if s.fb_depth == 24 then 7 ∷ pseudo 260 ∷ 16 ∷ 21 ∷ 5 ∷ 2 ∷ [] else [])
    ++ 0
      ∷ pseudo (32 - s.quality_level)
      ∷ pseudo (256 - s.compression_level)
      ∷ pseudo 223
      ∷ pseudo 224
      ∷ pseudo 258
      ∷ pseudo 261
      ∷ pseudo 308
      ∷ pseudo 309
      ∷ pseudo 312
      ∷ pseudo 313
      ∷ pseudo 307
      ∷ 0xc0a1e5ce
      ∷ (if s.fb_depth == 24 then 0x574d5664 ∷ pseudo 239 ∷ [] else [])

-- "we're past the point where we could backtrack". In Latin-1 the decoding does not fail.
unfoldable pub joined : Session → (width height : ℕ) → (name : List ℕ) → Step
unfolding encodings_of
joined s width height name =
    let s' = record s {
      fb_name = name;
      fb_width = width;
      fb_height = height;
      fb_depth = if same_text name amt_name then 8 else 24;
      connected = true;
    } in
    go_on s' (
      names_desktop name ∷ resizes width height ∷ (if s.view_only then [] else grabs ∷ [])
      ++ sends (format s'.fb_depth true)
        ∷ sends (encodings (encodings_of s'))
        ∷ sends (update_request false 0 0 width height)
        ∷ connects
        ∷ [])

abbrev pub named : Option (List ℕ) → (List ℕ → Step) → Handler Step
named none k q i = fault
named (some name) k q i = got (k name) i

-- In TightVNC mode there are capabilities, which are read past.
unfoldable pub past_capabilities : Bool → (name_length : ℕ) → Handler Step → Handler Step
past_capabilities false name_length next = next
past_capabilities true name_length next = do
  rq_wait 8 (24 + name_length)
  server_messages ← read16
  client_messages ← read16
  capabilities ← read16
  skip 2
  rq_wait ((server_messages + client_messages + capabilities) * 16) (32 + name_length)
  skip (16 * server_messages)
  skip (16 * client_messages)
  skip (16 * capabilities)
  next

unfoldable pub negotiate_server_init : Session → Handler Step
unfolding joined past_capabilities
negotiate_server_init s = do
  rq_wait 24 0
  width ← read16
  height ← read16
  bpp ← read8
  depth ← read8
  big_endian ← read8
  true_color ← read8
  red_max ← read16
  green_max ← read16
  blue_max ← read16
  red_shift ← read8
  green_shift ← read8
  blue_shift ← read8
  skip 3
  name_length ← read32
  rq_wait name_length 24
  text ← read_bytes name_length
  past_capabilities s.tight_vnc name_length (named (decode_utf8 text true) (joined s width height))

module _ (gen_des : (password challenge : List ℕ) → List ℕ)
    (ms_logon_ii : (g p a username password : List ℕ) → List ℕ) where
  abbrev pub by_state : Session → InitState → Handler Step
  by_state s protocol_version = negotiate_protocol_version s
  by_state s security = negotiate_security s
  by_state s authentication = negotiate_authentication gen_des ms_logon_ii s
  by_state s security_result = handle_security_result s
  by_state s security_reason = handle_security_reason s
  by_state s client_initialisation = give (
      go_on (record s { init_state = server_initialisation })
        (puts ((if s.shared then 1 else 0) ∷ []) ∷ []))
  by_state s server_initialisation = negotiate_server_init s

  unfoldable pub init_msg : Session → Handler Step
  unfolding negotiate_protocol_version negotiate_security negotiate_authentication
      handle_security_result handle_security_reason negotiate_server_init
  init_msg s = by_state s s.init_state
