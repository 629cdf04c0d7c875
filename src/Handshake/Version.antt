-- ===== src/Handshake/Version.antt =====
-- `_negotiateProtocolVersion` of rfb.js.
use warpyard.Base.{
  ℕ, ◌+◌, ◌-◌, ◌/◌, ◌%◌, Bool, true, false, ◌&&◌, ◌||◌, List, [], ◌∷◌, ◌++◌, length, take, drop,
  replicate, min, ◌==◌, if◌then◌else◌,
}
use warpyard.Stream.Handler.{Handler, ◌>>=◌, ◌>>◌, give, rq_wait, read_bytes}
use warpyard.Handshake.{Session, Step, security, puts, go_on, stop, fail}

abbrev pub same_text : List ℕ → List ℕ → Bool
same_text [] [] = true
same_text [] (d ∷ text) = false
same_text (c ∷ text) [] = false
same_text (c ∷ text) (d ∷ text') = c == d && same_text text text'

-- "00a.00b", or with more digits "00a.bcd".
abbrev pub version_text : (a b c d : ℕ) → List ℕ
version_text a b c d = 48 ∷ 48 ∷ (48 + a) ∷ 46 ∷ (48 + b) ∷ (48 + c) ∷ (48 + d) ∷ []

pub data Offer : Type 0 where
  repeater : Offer
  version : ℕ → Offer
  unknown : Offer

unfoldable pub offered : List ℕ → Offer
offered sversion =
    if same_text sversion (version_text 0 0 0 0)
    then repeater
    else if same_text sversion (version_text 3 0 0 3) || same_text sversion (version_text 3 0 0 6)
    then version 33
    else if same_text sversion (version_text 3 0 0 7)
    then version 37
    else if same_text sversion (version_text 3 0 0 8)
        || (same_text sversion (version_text 3 8 8 9)
            || (same_text sversion (version_text 4 0 0 0)
                || (same_text sversion (version_text 4 0 0 1)
                    || same_text sversion (version_text 5 0 0 0))))
    then version 38
    else unknown

-- "ID:", the name of the repeater, and zeros up to 250 bytes.
abbrev pub repeater_text : List ℕ → List ℕ
repeater_text id = 73 ∷ 68 ∷ 58 ∷ id ++ replicate (250 - (3 + length id)) 0

-- "RFB 00a.00b\n"
abbrev pub client_version : ℕ → List ℕ
client_version v = 82 ∷ 70 ∷ 66 ∷ 32 ∷ version_text (v / 10) 0 0 (v % 10) ++ 10 ∷ []

abbrev pub answer_version : Session → Offer → Step
answer_version s repeater = go_on s (puts (repeater_text s.repeater_id) ∷ [])
answer_version s unknown = fail s []
-- There is no return, which is no true one.
answer_version s (version v) =
    let agreed = min v s.rfb_max_version in
    stop (record s { rfb_version = agreed; init_state = security })
      (puts (client_version agreed) ∷ [])

unfoldable pub negotiate_protocol_version : Session → Handler Step
unfolding offered
negotiate_protocol_version s = do
  rq_wait 12 0
  text ← read_bytes 12
  give (answer_version s (offered (take 7 (drop 4 text))))
