-- ===== src/RemoteSupport/Sequential.antt =====
-- A call of HandleRequest that no other call interrupts.
use appcenter_agent.Common.{
  or_empty, ℕ, suc, String, ◌≡◌, refl, sym, ◌∙◌, subst, inl, inr, Bool, true, false, ◌&&◌, Option,
  none, some, arith, if◌then◌else◌, Bool-cases, is_some, ℤ, pos, int_beq_iff, nat_eq, int_eq,
  string_eq,
}
use appcenter_agent.Api.{RemoteSupportRequest}
use appcenter_agent.RemoteSupport.{
  pending, active, VncServer, SessionManager, Answers, start, start_secondary, entered, pre_start,
  pre_listen, asking, checking, reporting, accepted, Thread, request, stopping, done, advance,
}
use appcenter_agent.Common.Text.{trim_space}
use appcenter_agent.RemoteSupport.Run.{
  finish, at_rest, starts, verdict, served, ends, restarted, StartStep, finish_by, finish_stopping,
  accepted_end,
}

module _ (script : Thread → Answers) (req : RemoteSupportRequest) where
  abbrev answered : Bool → ℤ → Option (Option String) → Bool
  answered agreed k r = elim r [ none ↦ false | some pw ↦ agreed && served script req k pw ]

  -- the manager while the request waits for the user
  abbrev waiting : VncServer → SessionManager
  waiting v = record { state = pending; session = req.session_id; vnc = v }

  -- the manager of the active session
  abbrev granted : ℤ → Option (Option String) → VncServer → SessionManager
  granted k r v = elim r [
    | none ↦ at_rest
    | some pw ↦ restarted script req k (trim_space (or_empty pw)) (waiting v)
  ]

  reporting_from :
      (n : ℕ) (agreed : Bool) (k : ℤ) (v : VncServer) (r : Option (Option String))
      → (script (request req (reporting agreed k))).approve ≡ r
      → finish
          (suc (suc (suc (suc (suc (suc (suc (suc (suc n)))))))))
          script
          (request req (reporting agreed k))
          (waiting v)
        ≡ ends script req (answered agreed k r) (granted k r v)
  unfolding advance
  reporting_from n agreed k v none e =
      finish_by script req _ _ stopping (waiting v) (waiting v) (rw e refl)
      ∙ finish_stopping script req _ _
  reporting_from n true k v (some pw) e =
      finish_by script req _ _ (request req (accepted k pw)) (waiting v) (waiting v) (rw e refl)
      ∙ accepted_end script req n k pw (waiting v)
  reporting_from n false k v (some pw) e =
      finish_by script req _ _ stopping (waiting v) (waiting v) (rw e refl)
      ∙ finish_stopping script req _ _

  reporting_end :
      (n : ℕ) (agreed : Bool) (k : ℤ) (v : VncServer)
      → let r = (script (request req (reporting agreed k))).approve in
        finish
          (suc (suc (suc (suc (suc (suc (suc (suc (suc n)))))))))
          script
          (request req (reporting agreed k))
          (waiting v)
        ≡ ends script req (answered agreed k r) (granted k r v)
  reporting_end n agreed k v = reporting_from n agreed k v _ refl

  checking_end :
      (n : ℕ) (agreed : Bool) (k : ℤ) (v : VncServer)
      → let r = (script (request req (reporting agreed k))).approve in
        finish
          (suc (suc (suc (suc (suc (suc (suc (suc (suc (suc n))))))))))
          script
          (request req (checking agreed k))
          (waiting v)
        ≡ ends script req (answered agreed k r) (granted k r v)
  unfolding advance
  checking_end n agreed k v =
      finish_by script req _ _ _ (waiting v) _
        (ground (arith, int_beq_iff req.session_id req.session_id))
      ∙ reporting_end n agreed k v

  -- the part of the run after the helper listens
  abbrev outcome : VncServer → Option (Bool × ℤ) → Thread × SessionManager
  outcome v none = ends script req false at_rest
  outcome v (some (agreed, k)) =
      let r = (script (request req (reporting agreed k))).approve in
      ends script req (answered agreed k r) (granted k r v)

  asking_from :
      (n : ℕ) (v : VncServer) (d : Option (Bool × ℤ))
      → (script (request req asking)).dialog ≡ d
      → finish
          (suc (suc (suc (suc (suc (suc (suc (suc (suc (suc (suc n)))))))))))
          script
          (request req asking)
          (waiting v)
        ≡ outcome v d
  unfolding advance
  asking_from n v none e =
      finish_by script req _ _ stopping (waiting v) (waiting v) (rw e refl)
      ∙ finish_stopping script req _ _
  asking_from n v (some (agreed, k)) e =
      finish_by script req _ _ (request req (checking agreed k)) (waiting v) (waiting v) (rw e refl)
      ∙ checking_end n agreed k v

  pre_listen_end :
      (n : ℕ) (v : VncServer)
      → finish
          (suc (suc (suc (suc (suc (suc (suc (suc (suc (suc (suc (suc n))))))))))))
          script
          (request req pre_listen)
          (waiting v)
        ≡ (if (script (request req pre_listen)).listening
            then outcome v (verdict script req)
            else (done, at_rest))
  unfolding advance
  pre_listen_end n v = elim (Bool-cases (script (request req pre_listen)).listening) [
    | inr e ↦
        finish_by script req _ _ stopping (waiting v) (waiting v) (rw e refl)
        ∙ finish_stopping script req _ _
        ∙ rw e
    | inl e ↦ elim (Bool-cases req.requires_approval) [
      | inl ask ↦
          finish_by script req _ _ (request req asking) (waiting v) (waiting v) (rw (e, ask) refl)
          ∙ asking_from n v _ refl
          ∙ rw (e, ask)
      | inr auto ↦
          finish_by script req _ _ (request req (checking true (pos 1))) (waiting v) (waiting v)
            (rw (e, auto) refl)
          ∙ checking_end (suc n) true (pos 1) v
          ∙ rw (e, auto)
    ]
  ]

  pre_start_step : StartStep script req (request req pre_start) (request req pre_listen)
  unfolding advance
  pre_start_step m = ground arith

  whole : finish 14 script (request req entered) at_rest ≡ (
      if starts (script (request req pre_start))
      then (if (script (request req pre_listen)).listening
          then outcome (start (script (request req pre_start)) at_rest.vnc).1 (verdict script req)
          else (done, at_rest))
      else (done, at_rest))
  unfolding advance
  whole =
      finish_by script req 13 _ (request req pre_start) at_rest (waiting at_rest.vnc) refl
      ∙ finish_by script req 12 _ _ _ _ (pre_start_step (waiting at_rest.vnc))
      ∙ elim (Bool-cases (starts (script (request req pre_start)))) [
        | inl e ↦ rw e (pre_listen_end 0 _)
        | inr e ↦ rw e (finish_stopping script req 10 _)
      ]

  served_running :
      (k : ℤ) (pw : Option String) (m : SessionManager)
      → served script req k pw ≡ true
      → is_some (restarted script req k (trim_space (or_empty pw)) m).vnc.process ≡ true
  unfolding start start_secondary
  served_running k pw m h = ground arith

  abbrev Settled : Bool → Thread × SessionManager → Type 0
  Settled b r =
      (r.0 ≡ done)
      × (if b
          then ((r.1.state ≡ active)
              × (r.1.session ≡ req.session_id)
              × (is_some r.1.vnc.process ≡ true))
          else (r.1 ≡ at_rest))

  abbrev wins : Option (Bool × ℤ) → Bool
  wins none = false
  wins (some (agreed, k)) = answered agreed k (script (request req (reporting agreed k))).approve

  outcome-Settled : (v : VncServer) (d : Option (Bool × ℤ)) → Settled (wins d) (outcome v d)
  outcome-Settled v none = (refl, refl)
  outcome-Settled v (some (agreed, k)) =
      answer agreed k (script (request req (reporting agreed k))).approve
    where
      answer :
          (agreed : Bool) (k : ℤ) (r : Option (Option String))
          → Settled (answered agreed k r) (ends script req (answered agreed k r) (granted k r v))
      answer agreed k none = (refl, refl)
      answer false k (some pw) = (refl, refl)
      answer true k (some pw) = elim (Bool-cases (served script req k pw)) [
        | inl e ↦ rw e (refl, (refl, refl, served_running k pw (waiting v) e))
        | inr e ↦ rw e (refl, refl)
      ]

-- every call on the way succeeds, the user agrees if asked, and the server sends a password
abbrev pub succeeds : (Thread → Answers) → RemoteSupportRequest → Bool
succeeds script req =
    starts (script (request req pre_start))
    && ((script (request req pre_listen)).listening && wins script req (verdict script req))

-- From rest, a request that no other goroutine interrupts returns; if every call on the way
-- succeeds, the user agrees where asked and the server sends a password that is not blank, the
-- session is active under the identifier of the request with a helper running, and otherwise the
-- manager is at rest again.
pub uninterrupted :
    (script : Thread → Answers) (req : RemoteSupportRequest)
    → let (t, m) = finish 14 script (request req entered) at_rest in
      (t ≡ done)
      × (if succeeds script req
          then ((m.state ≡ active) × (m.session ≡ req.session_id) × (is_some m.vnc.process ≡ true))
          else (m ≡ at_rest))
uninterrupted script req =
    subst
      (λ r.
        (r.0 ≡ done)
        × (if succeeds script req
            then ((r.1.state ≡ active)
                × (r.1.session ≡ req.session_id)
                × (is_some r.1.vnc.process ≡ true))
            else (r.1 ≡ at_rest)))
      (sym (whole script req))
      (elim (Bool-cases (starts (script (request req pre_start)))) [
        | inr e ↦ rw e (refl, refl)
        | inl e ↦ elim (Bool-cases (script (request req pre_listen)).listening) [
          | inr e' ↦ rw (e, e') (refl, refl)
          | inl e' ↦ rw (e, e') (outcome-Settled script req _ (verdict script req))
        ]
      ])
