-- ===== src/RemoteSupport.antt =====
-- internal/remotesupport/session.go with the helper's process handles of vnc.go. HandleRequest,
-- HandleEndSignal and EndSession run as goroutines: a `Thread` is one of them, at the point that it
-- has come to, and `advance` runs it to its next lock, call or return. What a call outside the
-- program answers is in `Answers`. The logger and the status queries are left out.
pub mod Run
pub mod Sequential
pub mod Consent
pub mod Interleaving
pub mod Tests
use appcenter_agent.Common.{
  ℕ, zero, suc, ◌+◌, ◌-◌, ◌*◌, ◌/◌, ◌%◌, ◌^◌, ◌≤◌, ◌<◌, String, ◌≡◌, refl, sym, ap, ◌∙◌, subst, ◌≢◌,
  ◌↔◌, ◌⊎◌, inl, inr, Bool, true, false, not, ◌&&◌, ◌||◌, Option, none, some, List, [], ◌∷◌, ◌++◌,
  map, arith, eq_iff, ltb, leb, if◌then◌else◌, ltb→lt, lt→ltb, leb→le, tests, Bool-cases,
  Option-cases, is_some, ℤ, pos, negsuc, int_beq, int_ltb, is_positive, int_beq_iff, int_ltb_irrefl,
  int_ltb_asymm, int_ltb_neg_trans, int_ltb_antisymm, HasEq, ◌==◌, nat_eq, int_eq, string_eq,
  is_blank, or_empty, length, keep_if, head?, length-append, All, All-mono, All-map, All-of_map,
  All-keep_if, All-of_keep_if, All-both,
}
use appcenter_agent.Common.Dict.{
  Dict, lookup, contains, values, keys, Distinct, insert, delete, lookup-insert, lookup-delete,
  contains-insert, lookup-insert_self, lookup-delete_self, contains-delete, Distinct-insert,
  Distinct-delete, All-insert, All-delete, All-lookup, lookup_own,
}
use appcenter_agent.Common.Sort.{
  place, sort, All-place, All-sort, head-sort-All, head-sort-none, head-sort-min,
}
use appcenter_agent.Api.{
  Command, TaskStatusRequest, InstalledApp, RemoteSupportRequest, RemoteSupportEnd,
}
use appcenter_agent.Common.Text.{trim_space}

-- SessionState
pub data SessionState : Type 0 where
  idle pending approved connecting active : SessionState

pub is_idle : SessionState → Bool
is_idle idle = true
is_idle _ = false

pub is_pending : SessionState → Bool
is_pending pending = true
is_pending _ = false

-- VNCServer: the handles of the helper processes, by their identifiers
pub record VncServer : Type 0 where
  pub process : Option ℕ
  pub process2 : Option ℕ

-- SessionManager
pub record SessionManager : Type 0 where
  pub state : SessionState
  pub session : ℤ
  pub vnc : VncServer

-- NewSessionManager
pub new_session_manager : SessionManager
new_session_manager = record {
  state = idle;
  session = pos 0;
  vnc = record { process = none; process2 = none };
}

-- What the world answers to the call that a thread makes.
pub record Answers : Type 0 where
  pub available : Bool  -- os.Stat of the helper
  pub started : Option ℕ  -- startHelperProcess: the process, or an error
  pub listening : Bool  -- WaitListening
  pub dialog : Option (Bool × ℤ)  -- ShowApprovalDialogFromService
  pub approve : Option (Option String)  -- ApproveRemoteSession: the password of a response, if any
  pub ready : Bool  -- ReportRemoteReady succeeded

-- Stop
pub stop : VncServer → VncServer
stop v = record { process = none; process2 = none }

-- Start: whether it succeeded, and the handles after it
pub start : Answers → VncServer → Bool × VncServer
unfolding stop
start a v =
    if a.available
    then elim a.started [
      | none ↦ (false, stop v)
      | some pid ↦ (true, record (stop v) { process = some pid })
    ]
    else (false, v)

-- StartSecondary
pub start_secondary : Answers → VncServer → VncServer
start_secondary a v =
    if a.available
    then elim a.started [ none ↦ v | some pid ↦ record v { process2 = some pid } ]
    else v

-- Where a call of HandleRequest stands.
pub data Phase : Type 0 where
  entered : Phase
  pre_start : Phase
  pre_listen : Phase
  asking : Phase
  checking : Bool → ℤ → Phase
  reporting : Bool → ℤ → Phase
  accepted : ℤ → Option String → Phase
  restarting : ℤ → String → Phase
  listening_again : ℤ → String → Phase
  second_screen : String → Phase
  announcing : Phase
  reporting_ready : Phase
  activating : Phase

-- Where a call of EndSession stands; `matching` is HandleEndSignal's test before it.
pub data Ending : Type 0 where
  matching : ℤ → Ending
  reading : Ending
  telling : ℤ → Ending

pub data Thread : Type 0 where
  request : RemoteSupportRequest → Phase → Thread
  ending : Ending → Thread
  stopping : Thread
  clearing : Thread
  done : Thread

abbrev with_vnc : SessionManager → VncServer → SessionManager
with_vnc m v = record m { vnc = v }

abbrev two_or_more : ℤ → Bool
two_or_more n = int_ltb (pos 1) n

-- after a failed call the thread goes into `reset`
abbrev proceed : Bool → Thread → Thread
proceed ok next = if ok then next else stopping

-- HandleRequest, from one phase to the next
pub advance_request :
    Answers → RemoteSupportRequest → Phase → SessionManager → Thread × SessionManager
unfolding start start_secondary is_idle is_pending
advance_request a req entered m =
    if is_idle m.state
    then (request req pre_start, record m { state = pending; session = req.session_id })
    else (done, m)
advance_request a req pre_start m =
    let (ok, v) = start a m.vnc in (proceed ok (request req pre_listen), with_vnc m v)
advance_request a req pre_listen m =
    if a.listening
    then (if req.requires_approval
        then (request req asking, m)
        else (request req (checking true (pos 1)), m))
    else (stopping, m)
advance_request a req asking m = elim a.dialog [
  | none ↦ (stopping, m)
  | some (agreed, monitors) ↦ (request req (checking agreed monitors), m)
]
advance_request a req (checking agreed monitors) m =
    if is_pending m.state && m.session == req.session_id
    then (request req (reporting agreed monitors), m)
    else (done, m)
advance_request a req (reporting agreed monitors) m = elim a.approve [
  | none ↦ (stopping, m)
  | some password ↦ (proceed agreed (request req (accepted monitors password)), m)
]
advance_request a req (accepted monitors password) m =
    let secret = trim_space (or_empty password) in
    (
      if is_blank secret then stopping else request req (restarting monitors secret),
      record m { state = approved },
    )
advance_request a req (restarting monitors password) m =
    let (ok, v) = start a m.vnc in
    (proceed ok (request req (listening_again monitors password)), with_vnc m v)
advance_request a req (listening_again monitors password) m =
    if a.listening
    then (if two_or_more monitors
        then (request req (second_screen password), m)
        else (request req announcing, m))
    else (stopping, m)
advance_request a req (second_screen password) m =
    (request req announcing, with_vnc m (start_secondary a m.vnc))
advance_request a req announcing m = (request req reporting_ready, record m { state = connecting })
advance_request a req reporting_ready m = (proceed a.ready (request req activating), m)
advance_request a req activating m = (done, record m { state = active })

-- HandleEndSignal and EndSession; a failed report is only logged
pub advance_ending : Ending → SessionManager → Thread × SessionManager
advance_ending (matching id) m = if m.session == id then (ending reading, m) else (done, m)
advance_ending reading m = if m.session == pos 0 then (done, m) else (ending (telling m.session), m)
advance_ending (telling id) m = (stopping, m)

-- one step of a goroutine; `stopping` and `clearing` are `reset`
pub advance : Answers → Thread → SessionManager → Thread × SessionManager
unfolding advance_request advance_ending stop
advance a (request req p) m = advance_request a req p m
advance a (ending p) m = advance_ending p m
advance a stopping m = (clearing, with_vnc m (stop m.vnc))
advance a clearing m = (done, record m { state = idle; session = pos 0 })
advance a done m = (done, m)
