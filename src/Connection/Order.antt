-- ===== src/Connection/Order.antt =====
-- The order of the connection states of rfb.js and of the events that the page is told.
use warpyard.Base.{
  ◌+◌, Bool, true, false, List, [], ◌∷◌, ◌++◌, ◌≡◌, refl, sym, ap, subst, inl, inr, if_intro,
}
use warpyard.Websock.{raw_open, raw_closed, raw_connecting, raw_closing, raw_other}
use warpyard.Connection.{
  ConnectionState, initial, connecting, connected, disconnecting, disconnected, InitState,
  not_started, protocol_version, Notice, connect, disconnect, Target, url, raw_channel, Rfb, new,
  clear_timer, enter, to_disconnecting, to_disconnected, to_connected, to_connecting, fail,
  socket_open, connect_to, update_connection_state, socket_close, ask_disconnect, Event, start,
  negotiated, opened, closed, failed, asked, timed_out, step, run,
}
use warpyard.Connection.Leads.{
  IsOrdered, Leads, Moves, Moves-trans, Told, begin, end, establish, give_up, leave, rests, stay,
  unheard,
}

abbrev at : ConnectionState → Rfb → Rfb
at s r = record r { connection_state = s }

to_disconnecting_at :
    (s : ConnectionState) (r : Rfb)
    → IsOrdered (at s r)
    → Moves (at s r) (to_disconnecting (at s r))
unfolding to_disconnecting
to_disconnecting_at initial r o = rests (at initial r) o
to_disconnecting_at connecting r o = record {
  ordered = record { told = inl o.told; timed = refl };
  leads = give_up (stay disconnecting);
}
to_disconnecting_at connected r o = record {
  ordered = record { told = inr o.told; timed = refl };
  leads = leave (stay disconnecting);
}
to_disconnecting_at disconnecting r o = rests (at disconnecting r) o
to_disconnecting_at disconnected r o = rests (at disconnected r) o

to_disconnecting-Moves : (r : Rfb) → IsOrdered r → Moves r (to_disconnecting r)
to_disconnecting-Moves r o = to_disconnecting_at r.connection_state r o

Told-end :
    (ns : List Notice) (clean : Bool)
    → Told disconnecting ns
    → Told disconnected (ns ++ (disconnect clean ∷ []))
Told-end ns clean (inl e) = (clean, inl (ap (λ l. l ++ (disconnect clean ∷ [])) e))
Told-end ns clean (inr e) = (clean, inr (ap (λ l. l ++ (disconnect clean ∷ [])) e))

to_disconnected_at :
    (s : ConnectionState) (r : Rfb) → IsOrdered (at s r) → Moves (at s r) (to_disconnected (at s r))
unfolding to_disconnected clear_timer
to_disconnected_at initial r o = rests (at initial r) o
to_disconnected_at connecting r o = rests (at connecting r) o
to_disconnected_at connected r o = rests (at connected r) o
to_disconnected_at disconnecting r o =
    let t : r.disconn_timer ≡ true = o.timed in
    record {
      ordered = record {
        told = rw t (Told-end r.notices r.clean_disconnect o.told);
        timed = rw t refl;
      };
      leads = rw t (end (stay disconnected));
    }
to_disconnected_at disconnected r o = rests (at disconnected r) o

to_disconnected-Moves : (r : Rfb) → IsOrdered r → Moves r (to_disconnected r)
to_disconnected-Moves r o = to_disconnected_at r.connection_state r o

to_connected_at :
    (s : ConnectionState) (r : Rfb) → IsOrdered (at s r) → Moves (at s r) (to_connected (at s r))
unfolding to_connected clear_timer
to_connected_at initial r o = rests (at initial r) o
to_connected_at connecting r o =
    let t : r.disconn_timer ≡ false = o.timed in
    record {
      ordered = record { told = rw t (ap (λ l. l ++ (connect ∷ [])) o.told); timed = rw t refl };
      leads = rw t (establish (stay connected));
    }
to_connected_at connected r o = rests (at connected r) o
to_connected_at disconnecting r o = rests (at disconnecting r) o
to_connected_at disconnected r o = rests (at disconnected r) o

to_connected-Moves : (r : Rfb) → IsOrdered r → Moves r (to_connected r)
to_connected-Moves r o = to_connected_at r.connection_state r o

-- Other fields do not matter.
unclean-Moves : (r : Rfb) → IsOrdered r → Moves r (record r { clean_disconnect = false })
unclean-Moves r o = record {
  ordered = record { told = o.told; timed = o.timed };
  leads = stay r.connection_state;
}

fail-Moves : (r : Rfb) → IsOrdered r → Moves r (fail r)
unfolding fail
fail-Moves r o =
    Moves-trans (unclean-Moves r o)
      λ a. Moves-trans (to_disconnecting-Moves _ a) λ b. to_disconnected-Moves _ b

opening_at :
    (s : ConnectionState) (i : InitState) (r : Rfb)
    → IsOrdered (at s r)
    → Moves (at s (record r { init_state = i })) (socket_open (at s (record r { init_state = i })))
unfolding socket_open
opening_at connecting not_started r o = record {
  ordered = record { told = o.told; timed = o.timed };
  leads = stay connecting;
}
opening_at connecting protocol_version r o =
    fail-Moves _ (record { told = o.told; timed = o.timed })
opening_at initial i r o = fail-Moves _ (record { told = o.told; timed = o.timed })
opening_at connected i r o = fail-Moves _ (record { told = o.told; timed = o.timed })
opening_at disconnecting i r o = fail-Moves _ (record { told = o.told; timed = o.timed })
opening_at disconnected i r o = fail-Moves _ (record { told = o.told; timed = o.timed })

socket_open-Moves : (r : Rfb) → IsOrdered r → Moves r (socket_open r)
socket_open-Moves r o = opening_at r.connection_state r.init_state r o

attached-Moves : {r out : Rfb} → Moves r out → Moves r (record out { attached = out.attached + 1 })
attached-Moves m = record {
  ordered = record { told = m.ordered.told; timed = m.ordered.timed };
  leads = m.leads;
}

connect_to_at :
    (t : Target) (r : Rfb)
    → IsOrdered (record r { target = t })
    → Moves (record r { target = t }) (connect_to (record r { target = t }))
unfolding connect_to
connect_to_at url r o = attached-Moves (rests (record r { target = url }) o)
connect_to_at (raw_channel raw_closed) r o = record {
  ordered = record { told = o.told; timed = o.timed };
  leads = stay r.connection_state;
}
connect_to_at (raw_channel raw_open) r o =
    attached-Moves (socket_open-Moves (record r { target = raw_channel raw_open }) o)
connect_to_at (raw_channel raw_connecting) r o =
    attached-Moves (rests (record r { target = raw_channel raw_connecting }) o)
connect_to_at (raw_channel raw_closing) r o =
    attached-Moves (rests (record r { target = raw_channel raw_closing }) o)
connect_to_at (raw_channel raw_other) r o =
    attached-Moves (rests (record r { target = raw_channel raw_other }) o)

no_timer : (r : Rfb) → r.disconn_timer ≡ false → clear_timer r ≡ r
unfolding clear_timer
no_timer r t = simp t

to_connecting_at :
    (s : ConnectionState) (r : Rfb) → IsOrdered (at s r) → Moves (at s r) (to_connecting (at s r))
unfolding to_connecting
to_connecting_at initial r o =
    let r' = at initial r in
    let begun : IsOrdered (enter connecting r') = record { told = o.told; timed = o.timed } in
    let m = connect_to_at r.target (enter connecting r') begun in
    subst (λ c. Moves (at initial r) (connect_to c)) (sym (no_timer (enter connecting r') o.timed))
      (record { ordered = m.ordered; leads = begin m.leads })
to_connecting_at connecting r o = rests (at connecting r) o
to_connecting_at connected r o = rests (at connected r) o
to_connecting_at disconnecting r o = rests (at disconnecting r) o
to_connecting_at disconnected r o = rests (at disconnected r) o

socket_close_at :
    (s : ConnectionState) (r : Rfb) → IsOrdered (at s r) → Moves (at s r) (socket_close (at s r))
unfolding socket_close
socket_close_at initial r o = unheard (fail-Moves (at initial r) o)
socket_close_at connecting r o = unheard (fail-Moves (at connecting r) o)
socket_close_at connected r o =
    unheard (Moves-trans (to_disconnecting-Moves (at connected r) o) λ a. to_disconnected-Moves _ a)
socket_close_at disconnecting r o = unheard (to_disconnected-Moves (at disconnecting r) o)
socket_close_at disconnected r o = unheard (fail-Moves (at disconnected r) o)

step-Moves : (e : Event) (r : Rfb) → IsOrdered r → Moves r (step e r)
unfolding step update_connection_state ask_disconnect
step-Moves start r o = to_connecting_at r.connection_state r o
step-Moves negotiated r o = to_connected-Moves r o
step-Moves opened r o = if_intro (Moves r) r.on_open (λ h. socket_open-Moves r o) (λ h. rests r o)
step-Moves closed r o =
    if_intro (Moves r) r.on_close (λ h. socket_close_at r.connection_state r o) (λ h. rests r o)
step-Moves failed r o = fail-Moves r o
step-Moves asked r o =
    let m = to_disconnecting-Moves r o in
    record { ordered = record { told = m.ordered.told; timed = m.ordered.timed }; leads = m.leads }
step-Moves timed_out r o =
    if_intro (Moves r) r.disconn_timer (λ h. to_disconnected-Moves r o) (λ h. rests r o)

run-Moves : (es : List Event) (r : Rfb) → IsOrdered r → Moves r (run es r)
unfolding run
run-Moves [] r o = rests r o
run-Moves (e ∷ es) r o = Moves-trans (step-Moves e r o) λ a. run-Moves es (step e r) a

-- Whatever happens to a new connection, in whatever order: the values that its state has had, one by one,
-- follow the transitions of `Leads` from the initial one, the page has been told of at most one connect and
-- of at most one disconnect, the disconnect last and exactly when the state is disconnected, and the timer
-- of the disconnect runs exactly while the state is disconnecting.
pub run-IsOrdered :
    (target : Target) (es : List Event)
    → IsOrdered (run es (new target))
      × Leads initial [] (run es (new target)).connection_state (run es (new target)).visited
run-IsOrdered target es =
    let m = run-Moves es (new target) (record { told = refl; timed = refl }) in (m.ordered, m.leads)
