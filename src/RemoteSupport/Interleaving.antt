-- ===== src/RemoteSupport/Interleaving.antt =====
-- Goroutines that interleave, and what a session end does to a request that waits for the server.
use appcenter_agent.Common.{
  ℕ, zero, suc, ◌≡◌, refl, sym, ◌∙◌, subst, Bool, true, false, List, [], ◌∷◌, ◌++◌, arith, pos,
  int_beq_iff, nat_eq, int_eq, string_eq, All,
}
use appcenter_agent.Api.{RemoteSupportRequest, RemoteSupportEnd}
use appcenter_agent.RemoteSupport.{
  is_idle, SessionManager, Answers, Phase, entered, pre_start, pre_listen, asking, checking,
  reporting, accepted, restarting, listening_again, second_screen, announcing, reporting_ready,
  activating, matching, reading, telling, Thread, request, ending, stopping, clearing, done,
  advance,
}

pub record System : Type 0 where
  pub manager : SessionManager
  pub threads : List Thread

-- A goroutine starts (HandleRequest, HandleEndSignal, or EndSession called by the pipe handler), or
-- the one at a place of the list makes its next step.
pub data Event : Type 0 where
  requested : RemoteSupportRequest → Event
  end_signal : RemoteSupportEnd → Event
  user_ends : Event
  runs : ℕ → Answers → Event

abbrev run_at : ℕ → Answers → SessionManager → List Thread → List Thread × SessionManager
run_at i a m [] = ([], m)
run_at zero a m (t ∷ ts) = let (t', m') = advance a t m in (t' ∷ ts, m')
run_at (suc i) a m (t ∷ ts) = let (ts', m') = run_at i a m ts in (t ∷ ts', m')

unfoldable pub step : System → Event → System
step s (requested req) = record s { threads = s.threads ++ request req entered ∷ [] }
step s (end_signal e) = record s { threads = s.threads ++ ending (matching e.session_id) ∷ [] }
step s user_ends = record s { threads = s.threads ++ ending reading ∷ [] }
step s (runs i a) =
    let (ts, m) = run_at i a s.manager s.threads in record { manager = m; threads = ts }

unfoldable pub run : System → List Event → System
run s [] = s
run s (e ∷ es) = run (step s e) es

-- An idle manager has no session, at every point of every interleaving.
abbrev pub IdleIsFree : SessionManager → Type 0
IdleIsFree m = is_idle m.state ≡ true → m.session ≡ pos 0

advance-IdleIsFree :
    (a : Answers) (t : Thread) (m : SessionManager) → IdleIsFree m → IdleIsFree (advance a t m).1
unfolding advance
advance-IdleIsFree a (request r p) m h = phase p
  where
    phase : (p : Phase) → IdleIsFree (advance a (request r p) m).1
    phase entered = ground arith
    phase pre_start = ground arith
    phase pre_listen = ground arith
    phase asking = ground arith
    phase (checking agreed k) = ground arith
    phase (reporting agreed k) = ground arith
    phase (accepted k pw) = ground arith
    phase (restarting k pw) = ground arith
    phase (listening_again k pw) = ground arith
    phase (second_screen pw) = ground arith
    phase announcing = ground arith
    phase reporting_ready = ground arith
    phase activating = ground arith
advance-IdleIsFree a (ending (matching i)) m h = ground arith
advance-IdleIsFree a (ending reading) m h = ground arith
advance-IdleIsFree a (ending (telling i)) m h = h
advance-IdleIsFree a stopping m h = h
advance-IdleIsFree a clearing m h = ground arith
advance-IdleIsFree a done m h = h

-- A manager that holds a state other than idle for no session.
abbrev IsLost : SessionManager → Type 0
IsLost m = (is_idle m.state ≡ false) × (m.session ≡ pos 0)

-- a goroutine that has not started on anything yet, or has returned
abbrev pub is_fresh : Thread → Bool
is_fresh (request req entered) = true
is_fresh (request req p) = false
is_fresh (ending (matching id)) = true
is_fresh (ending reading) = true
is_fresh (ending (telling id)) = false
is_fresh stopping = false
is_fresh clearing = false
is_fresh done = true

lost_step :
    (a : Answers) (t : Thread) (m : SessionManager)
    → IsLost m
    → is_fresh t ≡ true
    → ((advance a t m).1 ≡ m) × (is_fresh (advance a t m).0 ≡ true)
unfolding advance
lost_step a (request req entered) m lost h = ground arith
lost_step a (ending (matching id)) m lost h = ground arith
lost_step a (ending reading) m lost h = ground (arith, int_beq_iff m.session (pos 0))
lost_step a done m lost h = (refl, refl)
lost_step a t m lost h = cc

abbrev AllFresh : List Thread → Type 0
AllFresh = All (λ t. is_fresh t ≡ true)

lost_run_at :
    (i : ℕ) (a : Answers) (m : SessionManager) (ts : List Thread)
    → IsLost m
    → AllFresh ts
    → ((run_at i a m ts).1 ≡ m) × AllFresh (run_at i a m ts).0
lost_run_at i a m [] lost h = (refl, tt)
lost_run_at zero a m (t ∷ ts) lost h = let (same, f) = lost_step a t m lost h.0 in (same, (f, h.1))
lost_run_at (suc i) a m (t ∷ ts) lost h =
    let (same, f) = lost_run_at i a m ts lost h.1 in (same, (h.0, f))

AllFresh-append :
    (t : Thread) (ts : List Thread) → is_fresh t ≡ true → AllFresh ts → AllFresh (ts ++ t ∷ [])
AllFresh-append t [] f h = (f, tt)
AllFresh-append t (u ∷ ts) f h = (h.0, AllFresh-append t ts f h.1)

lost_event :
    (s : System) (e : Event)
    → IsLost s.manager
    → AllFresh s.threads
    → ((step s e).manager ≡ s.manager) × AllFresh (step s e).threads
unfolding step
lost_event s (requested req) lost h = (refl, AllFresh-append _ s.threads refl h)
lost_event s (end_signal e) lost h = (refl, AllFresh-append _ s.threads refl h)
lost_event s user_ends lost h = (refl, AllFresh-append _ s.threads refl h)
lost_event s (runs i a) lost h = lost_run_at i a s.manager s.threads lost h

-- If the manager holds a state other than idle for the session 0 and no goroutine is under way,
-- then whatever requests, end signals and user ends follow, in any interleaving, the manager
-- stays as it is; so no request is ever taken up again.
pub lost_for_ever :
    (s : System) (es : List Event)
    → (is_idle s.manager.state ≡ false) × (s.manager.session ≡ pos 0)
    → All (λ t. is_fresh t ≡ true) s.threads
    → (run s es).manager ≡ s.manager
unfolding run
lost_for_ever s [] lost h = refl
lost_for_ever s (e ∷ es) lost h =
    let (same, f) = lost_event s e lost h in
    lost_for_ever (step s e) es (subst IsLost (sym same) lost) f ∙ same

run_at-IdleIsFree :
    (i : ℕ) (a : Answers) (m : SessionManager) (ts : List Thread)
    → IdleIsFree m
    → IdleIsFree (run_at i a m ts).1
run_at-IdleIsFree i a m [] h = h
run_at-IdleIsFree zero a m (t ∷ ts) h = advance-IdleIsFree a t m h
run_at-IdleIsFree (suc i) a m (t ∷ ts) h = run_at-IdleIsFree i a m ts h

step-IdleIsFree : (s : System) (e : Event) → IdleIsFree s.manager → IdleIsFree (step s e).manager
unfolding step
step-IdleIsFree s (requested req) h = h
step-IdleIsFree s (end_signal e) h = h
step-IdleIsFree s user_ends h = h
step-IdleIsFree s (runs i a) h = run_at-IdleIsFree i a s.manager s.threads h

-- From a manager that has no session when it is idle, every interleaving of requests, end
-- signals and user ends leads to one that has no session when it is idle.
pub run-IdleIsFree :
    (s : System) (es : List Event) → IdleIsFree s.manager → IdleIsFree (run s es).manager
unfolding run
run-IdleIsFree s [] h = h
run-IdleIsFree s (e ∷ es) h = run-IdleIsFree (step s e) es (step-IdleIsFree s e h)
