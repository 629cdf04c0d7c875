-- ===== src/Connection/Tests.antt =====
-- Runs of the connection states of rfb.js.
use warpyard.Base.{true, false, List, [], ◌∷◌, ◌≡◌, refl, inl, inr}
use warpyard.Websock.{raw_open}
use warpyard.Connection.{
  initial, connecting, connected, disconnecting, disconnected, connect, disconnect, url,
  raw_channel, Rfb, new, fail, start, negotiated, opened, closed, failed, asked, timed_out, Event,
  run,
}
use warpyard.Connection.Order.{run-IsOrdered}
use warpyard.Connection.Leads.{IsOrdered, Leads}
use warpyard.Connection.End.{fail-disconnects}

abbrev events : List Event
events = start ∷ opened ∷ negotiated ∷ asked ∷ timed_out ∷ closed ∷ failed ∷ []

run-IsOrdered_example :
    IsOrdered (run events (new url))
    × Leads initial [] disconnected (disconnecting ∷ connected ∷ connecting ∷ initial ∷ [])
unfolding run
run-IsOrdered_example = run-IsOrdered url events

abbrev over : Rfb
over = record (new url) { connection_state = disconnected; notices = disconnect true ∷ [] }

abbrev running : Rfb
running = record (new (raw_channel raw_open)) {
  connection_state = connected;
  notices = connect ∷ [];
}

running-IsOrdered : IsOrdered running
running-IsOrdered = record { told = refl; timed = refl }

fail-disconnects_example :
    ((fail running).connection_state ≡ disconnected)
    × ((fail running).notices ≡ connect ∷ disconnect false ∷ [])
    × ((fail running).disconn_timer ≡ false)
fail-disconnects_example = fail-disconnects running running-IsOrdered (inr (inl refl))
