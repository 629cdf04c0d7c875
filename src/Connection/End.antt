-- ===== src/Connection/End.antt =====
-- The end of a connection of rfb.js.
use warpyard.Base.{
  true, false, List, [], ◌∷◌, ◌++◌, ◌≡◌, refl, sym, subst, ◌∙◌, ◌⊎◌, inl, inr, if_intro,
}
use warpyard.Connection.{
  ConnectionState, initial, connecting, connected, disconnecting, disconnected, disconnect, Rfb,
  clear_timer, to_disconnecting, to_disconnected, to_connected, to_connecting, fail, socket_open,
  update_connection_state, socket_close, ask_disconnect, Event, start, negotiated, opened, closed,
  failed, asked, timed_out, step, run,
}
use warpyard.Connection.Leads.{IsOrdered}

-- Nothing that the page can see has changed since `r`.
record Kept (r out : Rfb) : Type 0 where
  state : out.connection_state ≡ disconnected
  stopped : out.disconn_timer ≡ false
  notices : out.notices ≡ r.notices
  attached : out.attached ≡ r.attached
  detached : out.detached ≡ r.detached

abbrev at : ConnectionState → Rfb → Rfb
at s r = record r { connection_state = s }

Kept-at : (e : Event) (r : Rfb) → r.disconn_timer ≡ false → Kept r (step e (at disconnected r))
unfolding step update_connection_state socket_open socket_close ask_disconnect fail to_disconnecting
    to_disconnected to_connected to_connecting
Kept-at start r t = record {
  state = refl;
  stopped = t;
  notices = refl;
  attached = refl;
  detached = refl;
}
Kept-at negotiated r t = record {
  state = refl;
  stopped = t;
  notices = refl;
  attached = refl;
  detached = refl;
}
Kept-at opened r t =
    if_intro (Kept r) r.on_open
      (λ h. (record {
        state = refl;
        stopped = t;
        notices = refl;
        attached = refl;
        detached = refl;
      }))
      (λ h. (record {
        state = refl;
        stopped = t;
        notices = refl;
        attached = refl;
        detached = refl;
      }))
Kept-at closed r t =
    if_intro (Kept r) r.on_close
      (λ h. (record {
        state = refl;
        stopped = t;
        notices = refl;
        attached = refl;
        detached = refl;
      }))
      (λ h. (record {
        state = refl;
        stopped = t;
        notices = refl;
        attached = refl;
        detached = refl;
      }))
Kept-at failed r t = record {
  state = refl;
  stopped = t;
  notices = refl;
  attached = refl;
  detached = refl;
}
Kept-at asked r t = record {
  state = refl;
  stopped = t;
  notices = refl;
  attached = refl;
  detached = refl;
}
Kept-at timed_out r t =
    if_intro (Kept r) r.disconn_timer
      (λ h. (record {
        state = refl;
        stopped = t;
        notices = refl;
        attached = refl;
        detached = refl;
      }))
      (λ h. (record {
        state = refl;
        stopped = t;
        notices = refl;
        attached = refl;
        detached = refl;
      }))

step-Kept : (e : Event) (r out : Rfb) → Kept r out → Kept r (step e out)
step-Kept e r out k =
    let next : Kept out (step e out) =
      subst (λ s. Kept out (step e (at s out))) (sym k.state) (Kept-at e out k.stopped) in
    record {
      state = next.state;
      stopped = next.stopped;
      notices = next.notices ∙ k.notices;
      attached = next.attached ∙ k.attached;
      detached = next.detached ∙ k.detached;
    }

run-Kept : (es : List Event) (r : Rfb) {start : Rfb} → Kept start r → Kept start (run es r)
unfolding run
run-Kept [] r k = k
run-Kept (e ∷ es) r {start} k = run-Kept es (step e r) (step-Kept e start r k)

failed_at :
    (s : ConnectionState) (r : Rfb)
    → IsOrdered (at s r)
    → (s ≡ connecting) ⊎ ((s ≡ connected) ⊎ (s ≡ disconnecting))
    → ((fail (at s r)).connection_state ≡ disconnected)
      × ((fail (at s r)).notices ≡ r.notices ++ (disconnect false ∷ []))
      × ((fail (at s r)).disconn_timer ≡ false)
unfolding fail to_disconnecting to_disconnected clear_timer
failed_at connecting r o h = (refl, refl, refl)
failed_at connected r o h = (refl, refl, refl)
failed_at disconnecting r o h = let t : r.disconn_timer ≡ true = o.timed in rw t (refl, refl, refl)
failed_at initial r o (inl h) = absurd (cc h)
failed_at initial r o (inr (inl h)) = absurd (cc h)
failed_at initial r o (inr (inr h)) = absurd (cc h)
failed_at disconnected r o (inl h) = absurd (cc h)
failed_at disconnected r o (inr (inl h)) = absurd (cc h)
failed_at disconnected r o (inr (inr h)) = absurd (cc h)

-- A connection that has ended stays as it is: whatever happens, the page is told nothing more, and the
-- page is neither attached nor detached again.
pub run-disconnected :
    (es : List Event) (r : Rfb)
    → r.connection_state ≡ disconnected
    → r.disconn_timer ≡ false
    → let out = run es r in
      (out.connection_state ≡ disconnected)
      × (out.notices ≡ r.notices)
      × (out.attached ≡ r.attached)
      × (out.detached ≡ r.detached)
run-disconnected es r d t =
    let k =
      run-Kept es r {start = r}
        (record { state = d; stopped = t; notices = refl; attached = refl; detached = refl }) in
    (k.state, k.notices, k.attached, k.detached)

-- An error while connecting or connected, or in the middle of a disconnect, ends the connection at
-- once, and the page is told that it was not clean.
pub fail-disconnects :
    (r : Rfb)
    → IsOrdered r
    → (r.connection_state ≡ connecting)
      ⊎ ((r.connection_state ≡ connected) ⊎ (r.connection_state ≡ disconnecting))
    → ((fail r).connection_state ≡ disconnected)
      × ((fail r).notices ≡ r.notices ++ (disconnect false ∷ []))
      × ((fail r).disconn_timer ≡ false)
fail-disconnects r o h = failed_at r.connection_state r o h
