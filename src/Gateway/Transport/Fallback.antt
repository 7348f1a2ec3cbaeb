-- ===== src/Gateway/Transport/Fallback.antt =====
-- Which transport is in effect, when requests of admins wait for the database while the sidecar's link goes up
-- and down.
use noblechat.Prelude.{
  ℕ, List, [], ◌∷◌, ◌++◌, Option, none, some, Bool, true, false, ◌&&◌, ◌||◌, not, JsString, Result,
  ok, err, ◌≡◌, arith, refl, subst, Bool-cases, inl, inr,
}
use noblechat.Gateway.State.{Settings, Gateway, Reply, Transport, log_event}
use noblechat.Gateway.Transport.{
  is_nym, is_connected, is_linked, broadcast_status, start_transport, on_connect, on_disconnect,
  nym_connected, nym_disconnected, admit, begin_switch, finish_switch, Switching, asked, ask,
  resume, link_up, link_down, is_waiting,
}

-- The events that touch the transport: an admin's request comes in, one that waited goes on, and the sidecar's
-- link goes up and down
pub data Step (s : Settings) : Switching → Switching → Type 0 where
  asks : (sw : Switching) (mode : JsString) → Step s sw (ask s mode sw)
  resumes :
      (sw : Switching) (now : ℕ) (before : List Transport) (mode : Transport)
      (after : List Transport)
      → sw.awaiting ≡ before ++ mode ∷ after
      → Step s sw (resume now before mode after sw)
  connects : (sw : Switching) (now : ℕ) (address : JsString) → Step s sw (link_up now address sw)
  drops : (sw : Switching) (now : ℕ) → Step s sw (link_down now sw)

-- The states that these events reach from a start
pub data Reach (s : Settings) (start : Switching) : Switching → Type 0 where
  here : Reach s start start
  next : {sw sw' : Switching} → Reach s start sw → Step s sw sw' → Reach s start sw'

pub InEffect : Gateway → Type 0
InEffect g = is_nym g.transport ≡ is_nym g.desired_transport && is_connected g.nym_address

-- `main` when it starts, with nothing waiting
abbrev pub started : ℕ → Option Transport → Gateway → Switching
started now stored g = record {
  gateway = start_transport now stored g;
  awaiting = [];
  is_disturbed = false;
}

-- What holds in between: one change at most waits, it is the one that is wanted, and nym only with its link.
Between : Bool → List Transport → Gateway → Type 0
Between true awaiting g = Unit
Between false [] g = InEffect g
Between false (mode ∷ []) g =
    (g.desired_transport ≡ mode) × (is_nym mode ≡ is_nym mode && is_connected g.nym_address)
Between false (mode ∷ mode' ∷ modes) g = ⊥

abbrev Steady : Switching → Type 0
Steady sw = Between sw.is_disturbed sw.awaiting sw.gateway

start-Steady : (now : ℕ) (stored : Option Transport) (g : Gateway) → Steady (started now stored g)
unfolding Between InEffect start_transport log_event
start-Steady now none g = refl
start-Steady now (some Transport.internal) g = refl
start-Steady now (some Transport.nym) g = refl

connected-InEffect :
    (g : Gateway) (now : ℕ) (address : JsString)
    → InEffect g
    → InEffect (nym_connected now address g)
unfolding InEffect nym_connected on_connect log_event broadcast_status
connected-InEffect g now address h = ground (arith, h)

disconnected-InEffect :
    (g : Gateway) (now : ℕ)
    → (is_connected g.nym_address ≡ false → InEffect g)
    → InEffect (nym_disconnected now g)
unfolding InEffect nym_disconnected on_disconnect log_event broadcast_status
disconnected-InEffect g now h = elim (Bool-cases (is_connected g.nym_address)) [
  | inl up ↦ ground (arith, up)
  | inr down ↦ ground (arith, down, h down)
]

finish-InEffect :
    (now : ℕ) (mode : Transport) (g : Gateway)
    → g.desired_transport ≡ mode
    → is_nym mode ≡ is_nym mode && is_connected g.nym_address
    → InEffect (finish_switch now mode g)
unfolding InEffect finish_switch log_event broadcast_status
finish-InEffect now mode g wanted h = by_transport mode g.transport refl refl
  where
    by_transport :
        (m t : Transport) → mode ≡ m → g.transport ≡ t → InEffect (finish_switch now mode g)
    by_transport Transport.internal Transport.internal e f = ground (arith, e, f, wanted, h)
    by_transport Transport.internal Transport.nym e f = ground (arith, e, f, wanted, h)
    by_transport Transport.nym Transport.internal e f = ground (arith, e, f, wanted, h)
    by_transport Transport.nym Transport.nym e f = ground (arith, e, f, wanted, h)

linked-connected : (a : Option JsString) → is_linked a ≡ true → is_connected a ≡ true
linked-connected none h = h
linked-connected (some a) h = refl

admit-ok :
    (s : Settings) (text_mode : JsString) (g : Gateway) (mode : Transport)
    → admit s text_mode g ≡ ok mode
    → is_nym mode ≡ is_nym mode && is_connected g.nym_address
unfolding admit
admit-ok s text_mode g Transport.internal h = refl
admit-ok s text_mode g Transport.nym h = elim (Bool-cases (is_linked g.nym_address)) [
  | inl linked ↦ ground (arith, linked-connected g.nym_address linked)
  | inr alone ↦ ground (arith, alone, h)
]

asked-Steady :
    (sw : Switching) (r : Result Reply Transport)
    → ((mode : Transport)
        → r ≡ ok mode
        → is_nym mode ≡ is_nym mode && is_connected sw.gateway.nym_address)
    → Steady sw
    → Steady (asked sw r)
unfolding Between begin_switch
asked-Steady sw (err refusal) fits h = h
asked-Steady sw (ok mode) fits h = added sw.is_disturbed sw.awaiting
  where
    added :
        (disturbed : Bool) (awaiting : List Transport)
        → Between
            (disturbed || is_waiting awaiting)
            (awaiting ++ mode ∷ [])
            (begin_switch mode sw.gateway)
    added true awaiting = tt
    added false [] = (refl, fits mode refl)
    added false (m ∷ modes) = tt

resumed-Steady :
    (disturbed : Bool) (now : ℕ) (before : List Transport) (mode : Transport)
    (after : List Transport) (g : Gateway)
    → Between disturbed (before ++ mode ∷ after) g
    → Between disturbed (before ++ after) (finish_switch now mode g)
unfolding Between
resumed-Steady true now before mode after g h = tt
resumed-Steady false now [] mode [] g (wanted, fits) = finish-InEffect now mode g wanted fits
resumed-Steady false now [] mode (m ∷ after) g h = absurd h
resumed-Steady false now (m ∷ []) mode after g h = absurd h
resumed-Steady false now (m ∷ m' ∷ before) mode after g h = absurd h

linked-Steady :
    (disturbed : Bool) (awaiting : List Transport) (now : ℕ) (address : JsString) (g : Gateway)
    → Between disturbed awaiting g
    → Between (disturbed || is_waiting awaiting) awaiting (nym_connected now address g)
unfolding Between
linked-Steady true awaiting now address g h = tt
linked-Steady false [] now address g h = connected-InEffect g now address h
linked-Steady false (m ∷ modes) now address g h = tt

dropped-Steady :
    (disturbed : Bool) (awaiting : List Transport) (now : ℕ) (g : Gateway)
    → Between disturbed awaiting g
    → Between
        (is_waiting awaiting || (disturbed && not (is_connected g.nym_address)))
        awaiting
        (nym_disconnected now g)
unfolding Between
dropped-Steady disturbed (m ∷ modes) now g h = tt
dropped-Steady false [] now g h = disconnected-InEffect g now (λ e. h)
dropped-Steady true [] now g h = elim (Bool-cases (is_connected g.nym_address)) [
  | inl up ↦ rw up (disconnected-InEffect g now (λ e. absurd (ground (arith, up, e))))
  | inr down ↦ rw down tt
]

Step-Steady : {s : Settings} {sw sw' : Switching} → Step s sw sw' → Steady sw → Steady sw'
unfolding ask resume link_up link_down
Step-Steady {s = s} (Step.asks sw mode) h =
    asked-Steady sw (admit s mode sw.gateway) (λ m e. admit-ok s mode sw.gateway m e) h
Step-Steady (Step.resumes sw now before mode after e) h =
    resumed-Steady sw.is_disturbed now before mode after sw.gateway
      (subst (λ (l : List Transport). Between sw.is_disturbed l sw.gateway) e h)
Step-Steady (Step.connects sw now address) h =
    linked-Steady sw.is_disturbed sw.awaiting now address sw.gateway h
Step-Steady (Step.drops sw now) h = dropped-Steady sw.is_disturbed sw.awaiting now sw.gateway h

Reach-Steady :
    (s : Settings) (now : ℕ) (stored : Option Transport) (g : Gateway) (sw : Switching)
    → Reach s (started now stored g) sw
    → Steady sw
Reach-Steady s now stored g sw Reach.here = start-Steady now stored g
Reach-Steady s now stored g sw (Reach.next r st) = Step-Steady st (Reach-Steady s now stored g _ r)

-- From a start of the gateway on, requests of admins come in, wait for `setSetting` and go on in any order,
-- and the sidecar's link goes up and down in between. In every state that is reached, with no request
-- waiting, the transport in effect is nym exactly when nym is what was wanted last and the sidecar is
-- connected; unless the link changed, or another request came, while a request was waiting, and no connected
-- sidecar has dropped with none waiting since then.
pub Reach-InEffect :
    (s : Settings) (now : ℕ) (stored : Option Transport) (g : Gateway) (sw : Switching)
    → Reach s (started now stored g) sw
    → sw.awaiting ≡ []
    → sw.is_disturbed ≡ false
    → InEffect sw.gateway
unfolding Between
Reach-InEffect s now stored g sw r idle calm =
    subst (λ (l : List Transport). Between false l sw.gateway) idle
      (subst (λ (b : Bool). Between b sw.awaiting sw.gateway) calm
        (Reach-Steady s now stored g sw r))
