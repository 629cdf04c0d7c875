-- ===== src/Utf8/Latin1.antt =====
-- `decodeUTF8` of strings.js by what `decodeURIComponent` makes of its string.
use warpyard.Base.{ℕ, Bool, none, some, List, if◌then◌else◌, ◌≡◌}
use warpyard.Utf8.{decode_from, decode_utf8}

pub decode_utf8_latin1 :
    (bytes : List ℕ) (allow : Bool)
    → decode_from 0 0 0 bytes ≡ none
    → decode_utf8 bytes allow ≡ (if allow then some bytes else none)
unfolding decode_utf8
decode_utf8_latin1 bytes allow e = rw (e, decode_utf8)

pub decode_utf8-some :
    (bytes text : List ℕ) (allow : Bool)
    → decode_from 0 0 0 bytes ≡ some text
    → decode_utf8 bytes allow ≡ some text
unfolding decode_utf8
decode_utf8-some bytes text allow e = rw (e, decode_utf8)
