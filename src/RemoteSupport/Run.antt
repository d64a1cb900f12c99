-- ===== src/RemoteSupport/Run.antt =====
-- A goroutine that runs alone, step by step, and the second half of HandleRequest.
use appcenter_agent.Common.{
  or_empty, ℕ, zero, suc, String, ◌≡◌, refl, ap, ◌∙◌, inl, inr, Bool, true, not, ◌&&◌, Option, none,
  some, arith, if◌then◌else◌, Bool-cases, is_some, ℤ, pos, nat_eq, int_eq, string_eq, is_blank,
}
use appcenter_agent.Api.{RemoteSupportRequest}
use appcenter_agent.RemoteSupport.{
  idle, active, VncServer, SessionManager, Answers, start, start_secondary, asking, accepted,
  restarting, listening_again, second_screen, announcing, reporting_ready, Thread, request,
  stopping, done, advance, with_vnc, two_or_more,
}
use appcenter_agent.Common.Text.{trim_space}

-- `finish n script t m` runs a thread for n steps; `script` answers the call made at each point.
pub finish : ℕ → (Thread → Answers) → Thread → SessionManager → Thread × SessionManager
finish zero script t m = (t, m)
finish (suc n) script t m = let (t', m') = advance (script t) t m in finish n script t' m'

-- the manager after `reset`
abbrev pub at_rest : SessionManager
at_rest = record { state = idle; session = pos 0; vnc = record { process = none; process2 = none } }

abbrev pub starts : Answers → Bool
starts a = a.available && is_some a.started

abbrev pub verdict : (Thread → Answers) → RemoteSupportRequest → Option (Bool × ℤ)
verdict script req =
    if req.requires_approval then (script (request req asking)).dialog else some (true, pos 1)

abbrev pub served : (Thread → Answers) → RemoteSupportRequest → ℤ → Option String → Bool
served script req monitors password =
    let secret = trim_space (or_empty password) in
    not (is_blank secret)
    && (starts (script (request req (restarting monitors secret)))
        && ((script (request req (listening_again monitors secret))).listening
            && (script (request req reporting_ready)).ready))

module _ (script : Thread → Answers) (req : RemoteSupportRequest) where
  finish-done : (n : ℕ) (m : SessionManager) → finish n script done m ≡ (done, m)
  unfolding finish advance
  finish-done zero m = refl
  finish-done (suc n) m = finish-done n m

  abbrev pub ends : Bool → SessionManager → Thread × SessionManager
  ends ok m = (done, if ok then m else at_rest)

  -- Each lemma takes the thread from one point to its end.
  announcing_end :
      (n : ℕ) (m : SessionManager)
      → finish (suc (suc (suc (suc n)))) script (request req announcing) m
        ≡ ends (script (request req reporting_ready)).ready (record m { state = active })
  unfolding finish advance
  announcing_end n m =
      ground (arith, finish-done n at_rest, finish-done (suc n) (record m { state = active }))

  abbrev pub second : ℤ → String → VncServer → VncServer
  second k pw v =
      if (script (request req (listening_again k pw))).listening && two_or_more k
      then start_secondary (script (request req (second_screen pw))) v
      else v

  listening_end :
      (n : ℕ) (k : ℤ) (pw : String) (m : SessionManager)
      → finish (suc (suc (suc (suc (suc (suc n)))))) script (request req (listening_again k pw)) m
        ≡ ends
            ((script (request req (listening_again k pw))).listening
              && (script (request req reporting_ready)).ready)
            (record m { state = active; vnc = second k pw m.vnc })
  unfolding finish advance
  listening_end n k pw m = ground (
    arith,
    finish-done n at_rest,
    announcing_end n (with_vnc m (start_secondary (script (request req (second_screen pw))) m.vnc)),
    announcing_end (suc n) m,
  )

  abbrev pub restarted : ℤ → String → SessionManager → SessionManager
  restarted k pw m = record m {
    state = active;
    vnc = second k pw (start (script (request req (restarting k pw))) m.vnc).1;
  }

  starts_lem : (a : Answers) (v : VncServer) → (start a v).0 ≡ starts a
  unfolding start
  starts_lem a v = ground arith

  -- one step of the run, with what the thread did
  pub finish_by :
      (n : ℕ) (t t' : Thread) (m m' : SessionManager)
      → advance (script t) t m ≡ (t', m')
      → finish (suc n) script t m ≡ finish n script t' m'
  unfolding finish
  finish_by n t t' m m' e = ap (λ r. finish n script r.0 r.1) e

  pub finish_stopping :
      (n : ℕ) (m : SessionManager) → finish (suc (suc n)) script stopping m ≡ (done, at_rest)
  unfolding finish advance
  finish_stopping n m = finish-done n at_rest

  abbrev pub StartStep : Thread → Thread → Type 0
  StartStep t next =
      (m : SessionManager)
      → advance (script t) t m
        ≡ (if starts (script t) then next else stopping, with_vnc m (start (script t) m.vnc).1)

  restarting_step :
      (k : ℤ) (pw : String)
      → StartStep (request req (restarting k pw)) (request req (listening_again k pw))
  unfolding advance
  restarting_step k pw m = ground arith

  restarting_end :
      (n : ℕ) (k : ℤ) (pw : String) (m : SessionManager)
      → finish (suc (suc (suc (suc (suc (suc (suc n))))))) script (request req (restarting k pw)) m
        ≡ ends
            (starts (script (request req (restarting k pw)))
              && ((script (request req (listening_again k pw))).listening
                  && (script (request req reporting_ready)).ready))
            (restarted k pw m)
  restarting_end n k pw m =
      finish_by _ _ _ m _ (restarting_step k pw m)
      ∙ elim (Bool-cases (starts (script (request req (restarting k pw))))) [
        | inl e ↦ rw e (listening_end n k pw _)
        | inr e ↦ rw e (finish_stopping _ _)
      ]

  pub accepted_end :
      (n : ℕ) (k : ℤ) (pw : Option String) (m : SessionManager)
      → finish
          (suc (suc (suc (suc (suc (suc (suc (suc n))))))))
          script
          (request req (accepted k pw))
          m
        ≡ ends (served script req k pw) (restarted k (trim_space (or_empty pw)) m)
  unfolding advance
  accepted_end n k pw m =
      finish_by _ _ _ m _ refl ∙ elim (Bool-cases (is_blank (trim_space (or_empty pw)))) [
        | inl e ↦ rw e (finish_stopping _ _)
        | inr e ↦ rw e (restarting_end n k (trim_space (or_empty pw)) _)
      ]
