-- ===== src/RemoteSupport/Consent.antt =====
-- Consent: what a request does after approval, whatever other goroutines do to the manager.
use appcenter_agent.Common.{
  ◌≡◌, refl, ◌⊎◌, Bool, true, false, not, ◌||◌, Option, none, some, List, [], ◌∷◌, arith, ℤ, nat_eq,
  int_eq, string_eq,
}
use appcenter_agent.Api.{RemoteSupportRequest}
use appcenter_agent.RemoteSupport.{
  SessionManager, Answers, Phase, entered, pre_start, pre_listen, asking, checking, reporting,
  accepted, restarting, listening_again, second_screen, announcing, reporting_ready, activating,
  matching, reading, telling, Thread, request, ending, stopping, clearing, done, advance,
}

-- The thread's own steps; before each one the manager is what the other goroutines left.
unfoldable pub run_under : List (SessionManager × Answers) → Thread → Thread
run_under [] t = t
run_under ((m, a) ∷ rest) t = run_under rest (advance a t m).0

-- the thread has passed the approval
abbrev pub is_granted : Thread → Bool
is_granted (request req entered) = false
is_granted (request req pre_start) = false
is_granted (request req pre_listen) = false
is_granted (request req asking) = false
is_granted (request req (checking agreed k)) = false
is_granted (request req (reporting agreed k)) = false
is_granted (request req p) = true
is_granted t = false

abbrev says_yes : Option (Bool × ℤ) → Bool
says_yes none = false
says_yes (some (agreed, k)) = agreed

-- some dialog was answered with yes
abbrev pub agreed_in : List (SessionManager × Answers) → Bool
agreed_in [] = false
agreed_in ((m, a) ∷ rest) = says_yes a.dialog || agreed_in rest

-- the thread holds a yes, or needs none
abbrev holds_yes : Thread → Bool
holds_yes (request req entered) = false
holds_yes (request req pre_start) = false
holds_yes (request req pre_listen) = false
holds_yes (request req asking) = false
holds_yes (request req (checking agreed k)) = agreed
holds_yes (request req (reporting agreed k)) = agreed
holds_yes (request req p) = true
holds_yes t = false

abbrev Owned : RemoteSupportRequest → Thread → Type 0
Owned req (request r p) = r ≡ req
Owned req (ending e) = Unit
Owned req stopping = Unit
Owned req clearing = Unit
Owned req done = Unit

-- `heard` says that a dialog was answered with yes so far
abbrev Backed : RemoteSupportRequest → Bool → Thread → Type 0
Backed req heard t =
    Owned req t × (holds_yes t ≡ true → (not req.requires_approval || heard) ≡ true)

advance-Owned :
    (req : RemoteSupportRequest) (t : Thread) (m : SessionManager) (a : Answers)
    → Owned req t
    → Owned req (advance a t m).0
unfolding advance
advance-Owned req (request r entered) m a h = ground arith
advance-Owned req (request r pre_start) m a h = ground arith
advance-Owned req (request r pre_listen) m a h = ground arith
advance-Owned req (request r asking) m a h = ground arith
advance-Owned req (request r (checking agreed k)) m a h = ground arith
advance-Owned req (request r (reporting agreed k)) m a h = ground arith
advance-Owned req (request r (accepted k pw)) m a h = ground arith
advance-Owned req (request r (restarting k pw)) m a h = ground arith
advance-Owned req (request r (listening_again k pw)) m a h = ground arith
advance-Owned req (request r (second_screen pw)) m a h = ground arith
advance-Owned req (request r announcing) m a h = ground arith
advance-Owned req (request r reporting_ready) m a h = ground arith
advance-Owned req (request r activating) m a h = ground arith
advance-Owned req (ending (matching i)) m a h = ground arith
advance-Owned req (ending reading) m a h = ground arith
advance-Owned req (ending (telling i)) m a h = tt
advance-Owned req stopping m a h = tt
advance-Owned req clearing m a h = tt
advance-Owned req done m a h = tt

advance-holds :
    (req : RemoteSupportRequest) (heard : Bool) (t : Thread) (m : SessionManager) (a : Answers)
    → Owned req t
    → (holds_yes t ≡ true → (not req.requires_approval || heard) ≡ true)
    → holds_yes (advance a t m).0 ≡ true
    → (not req.requires_approval || (says_yes a.dialog || heard)) ≡ true
unfolding advance
advance-holds req heard (request r entered) m a own h e = ground arith
advance-holds req heard (request r pre_start) m a own h e = ground arith
advance-holds req heard (request r pre_listen) m a own h e = ground arith
advance-holds req heard (request r asking) m a own h e = ground arith
advance-holds req heard (request r (checking agreed k)) m a own h e = ground arith
advance-holds req heard (request r (reporting agreed k)) m a own h e = ground arith
advance-holds req heard (request r (accepted k pw)) m a own h e = ground arith
advance-holds req heard (request r (restarting k pw)) m a own h e = ground arith
advance-holds req heard (request r (listening_again k pw)) m a own h e = ground arith
advance-holds req heard (request r (second_screen pw)) m a own h e = ground arith
advance-holds req heard (request r announcing) m a own h e = ground arith
advance-holds req heard (request r reporting_ready) m a own h e = ground arith
advance-holds req heard (request r activating) m a own h e = ground arith
advance-holds req heard (ending (matching i)) m a own h e = ground arith
advance-holds req heard (ending reading) m a own h e = ground arith
advance-holds req heard (ending (telling i)) m a own h e = cc
advance-holds req heard stopping m a own h e = cc
advance-holds req heard clearing m a own h e = cc
advance-holds req heard done m a own h e = cc

run_under-holds :
    (req : RemoteSupportRequest) (ms : List (SessionManager × Answers)) (heard : Bool) (t : Thread)
    → Owned req t
    → (holds_yes t ≡ true → (not req.requires_approval || heard) ≡ true)
    → holds_yes (run_under ms t) ≡ true
    → (not req.requires_approval || (agreed_in ms || heard)) ≡ true
unfolding run_under
run_under-holds req [] heard t own h e = h e
run_under-holds req ((m, a) ∷ ms) heard t own h e =
    let later =
      run_under-holds req ms (says_yes a.dialog || heard) (advance a t m).0
        (advance-Owned req t m a own) (advance-holds req heard t m a own h) e in
    ground (arith, later)

granted-holds : (t : Thread) → is_granted t ≡ true → holds_yes t ≡ true
granted-holds (request r p) h = phase p h
  where
    phase : (p : Phase) → is_granted (request r p) ≡ true → holds_yes (request r p) ≡ true
    phase entered h = cc
    phase pre_start h = cc
    phase pre_listen h = cc
    phase asking h = cc
    phase (checking agreed k) h = cc
    phase (reporting agreed k) h = cc
    phase _ h = refl
granted-holds (ending e) h = cc
granted-holds stopping h = cc
granted-holds clearing h = cc
granted-holds done h = cc

-- However other goroutines change the manager between its steps, a request gets past the
-- approval only if it requires none or some approval dialog was answered with yes.
pub granted_needs_consent :
    (req : RemoteSupportRequest) (ms : List (SessionManager × Answers))
    → is_granted (run_under ms (request req entered)) ≡ true
    → (req.requires_approval ≡ false) ⊎ (agreed_in ms ≡ true)
granted_needs_consent req ms h =
    let found =
      run_under-holds req ms false (request req entered) refl (λ e. cc)
        (granted-holds (run_under ms (request req entered)) h) in
    ground (arith, found)
