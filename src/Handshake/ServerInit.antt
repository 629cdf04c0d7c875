-- ===== src/Handshake/ServerInit.antt =====
-- How `_negotiateServerInit` of rfb.js takes its message.
use warpyard.Base.{true, ◌≡◌}
use warpyard.Stream.{Stream}
use warpyard.Stream.Handler.{Handler}
use warpyard.Stream.Handler.Resumes.{Resumes}
use warpyard.Handshake.{Step}

-- Every answer that is got connects.
abbrev pub IsConnected : Step → Type 0
IsConnected r = (r.goes_on ≡ true) × (r.session.connected ≡ true)
