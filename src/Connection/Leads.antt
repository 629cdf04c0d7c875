-- ===== src/Connection/Leads.antt =====
-- The transitions of the connection states of rfb.js, and what a step keeps.
use warpyard.Base.{Bool, true, false, List, [], ◌∷◌, ◌≡◌, ◌⊎◌}
use warpyard.Connection.{
  ConnectionState, initial, connecting, connected, disconnecting, disconnected, Notice, connect,
  disconnect, Rfb,
}

-- Runs along the transitions that there are, from a state and those visited before it, the last one first,
-- to another one and those visited before that.
pub data Leads
    : (from : ConnectionState) (before : List ConnectionState)
      → (to : ConnectionState) (visited : List ConnectionState) → Type 0 where
  stay : (s : ConnectionState) {l : List ConnectionState} → Leads s l s l
  begin :
      {s : ConnectionState} {l m : List ConnectionState}
      → Leads connecting (initial ∷ l) s m
      → Leads initial l s m
  establish :
      {s : ConnectionState} {l m : List ConnectionState}
      → Leads connected (connecting ∷ l) s m
      → Leads connecting l s m
  give_up :
      {s : ConnectionState} {l m : List ConnectionState}
      → Leads disconnecting (connecting ∷ l) s m
      → Leads connecting l s m
  leave :
      {s : ConnectionState} {l m : List ConnectionState}
      → Leads disconnecting (connected ∷ l) s m
      → Leads connected l s m
  end :
      {s : ConnectionState} {l m : List ConnectionState}
      → Leads disconnected (disconnecting ∷ l) s m
      → Leads disconnecting l s m

pub Leads-trans :
    {a b c : ConnectionState} {k l m : List ConnectionState}
    → Leads a k b l
    → Leads b l c m
    → Leads a k c m
Leads-trans (stay s) q = q
Leads-trans (begin p) q = begin (Leads-trans p q)
Leads-trans (establish p) q = establish (Leads-trans p q)
Leads-trans (give_up p) q = give_up (Leads-trans p q)
Leads-trans (leave p) q = leave (Leads-trans p q)
Leads-trans (end p) q = end (Leads-trans p q)

-- What the page has been told by the time of each state.
abbrev pub Told : ConnectionState → List Notice → Type 0
Told initial ns = ns ≡ []
Told connecting ns = ns ≡ []
Told connected ns = ns ≡ connect ∷ []
Told disconnecting ns = (ns ≡ []) ⊎ (ns ≡ connect ∷ [])
Told disconnected ns =
    (clean : Bool) × ((ns ≡ disconnect clean ∷ []) ⊎ (ns ≡ connect ∷ disconnect clean ∷ []))

abbrev pub is_disconnecting : ConnectionState → Bool
is_disconnecting disconnecting = true
is_disconnecting _ = false

pub record IsOrdered (r : Rfb) : Type 0 where
  pub told : Told r.connection_state r.notices
  -- the timer runs exactly while the connection closes
  pub timed : r.disconn_timer ≡ is_disconnecting r.connection_state

-- A step from one ordered object to another, along the transitions.
pub record Moves (r out : Rfb) : Type 0 where
  pub ordered : IsOrdered out
  pub leads : Leads r.connection_state r.visited out.connection_state out.visited

pub Moves-trans : {a b c : Rfb} → Moves a b → (IsOrdered b → Moves b c) → Moves a c
Moves-trans p q =
    let next = q p.ordered in
    record { ordered = next.ordered; leads = Leads-trans p.leads next.leads }

pub rests : (r : Rfb) → IsOrdered r → Moves r r
rests r o = record { ordered = o; leads = stay r.connection_state }

pub unheard : {r out : Rfb} → Moves r out → Moves r (record out { on_close = false })
unheard m = record {
  ordered = record { told = m.ordered.told; timed = m.ordered.timed };
  leads = m.leads;
}
