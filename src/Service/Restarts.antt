-- ===== src/Service/Restarts.antt =====
-- When an update restarts the service, and what a broadcast takes from its payload.
use appcenter_agent.Common.{
  ℕ, String, ◌≡◌, refl, ap, ◌∙◌, subst, ◌≢◌, ◌⊎◌, inl, inr, true, false, Option, none, some, [],
  ◌∷◌, arith, if◌then◌else◌, nat_beq, Bool-cases, ◌==◌, nat_eq, int_eq, string_eq, is_blank,
}
use appcenter_agent.Common.Dict.{lookup, lookup-insert}
use appcenter_agent.Json.{Json, JsonObject, get_text}
use appcenter_agent.Updater.{
  StagedUpdate, absent, Disk, StageResult, skipped, failed, done, stage_if_needed, HelperCall,
  ApplyResult, nothing, refused, restart, helper_call, apply_if_pending, staged_update,
}
use appcenter_agent.Updater.Applying.{Applicable, apply_checks, stage_then_apply}
use mathlib.Core.Option.{some-injective}
use appcenter_agent.Service.SelfUpdate.{
  Payload, World, is_payload_for_current_platform, set_key, copy_key, extract_self_update_changes,
  started, apply_when_idle, stage, apply_after, unless_started, apply_self_update_changes,
  on_broadcast_self_update, or_no_changes, on_poll_result,
}

-- the update whose helper is called: newer or forced, and with its hash
abbrev pub Checked : World → Disk → HelperCall → Type 0
Checked w disk call =
    (m : StagedUpdate) × Applicable w.sha256 w.cfg w.service_exe disk m
    × (call ≡ helper_call w.cfg w.cfg_path w.service_exe m)

started_restart : (r : ApplyResult) (call : HelperCall) → started r ≡ some call → r ≡ restart call
started_restart nothing call e = cc
started_restart refused call e = cc
started_restart (restart c) call e = ap restart (some-injective _ _ e)

idle-Checked :
    (w : World) (pending : ℕ) (disk : Disk) (call : HelperCall)
    → apply_when_idle w pending disk ≡ some call
    → (pending ≡ 0) × Checked w disk call
unfolding apply_when_idle
idle-Checked w pending disk call e = elim (Bool-cases (nat_beq pending 0)) [
  | inl idle ↦
      let e' : started (apply_if_pending w.sha256 w.starts w.cfg w.cfg_path w.service_exe disk)
          ≡ some call =
        rw idle at e in
      (
        (ground arith),
        apply_checks w.sha256 w.starts w.cfg w.cfg_path w.service_exe disk call
            (started_restart _ call e'),
      )
  | inr busy ↦ let clash : none ≡ some call = rw busy at e in cc
]

-- no task is pending at the check of the disk that results: the disk as it was, or as the staging
-- leaves it
abbrev pub CheckedAt : ℕ → ℕ → Disk → Disk → Disk → Type 0
CheckedAt before after first second disk =
    ((before ≡ 0) × (disk ≡ first)) ⊎ ((after ≡ 0) × (disk ≡ second))

-- the helper is called with an update that the final disk holds
Restarts : World → ℕ → ℕ → Disk → Disk → Option HelperCall × Disk → Type 0
Restarts w before after first second (none, disk) = Unit
Restarts w before after first second (some call, disk) =
    CheckedAt before after first second disk × Checked w disk call

of_idle :
    (w : World) (before after pending : ℕ) (first second disk : Disk) (o : Option HelperCall)
    → ((pending ≡ 0) → CheckedAt before after first second disk)
    → apply_when_idle w pending disk ≡ o
    → Restarts w before after first second (o, disk)
unfolding Restarts
of_idle w before after pending first second disk none f e = tt
of_idle w before after pending first second disk (some call) f e =
    let h = idle-Checked w pending disk call e in (f h.0, h.1)

apply_after-Restarts :
    (w : World) (before after : ℕ) (first : Disk) (r : StageResult × Disk)
    → Restarts w before after first r.1 (apply_after w after r)
unfolding Restarts apply_after
apply_after-Restarts w before after first (failed, disk) = tt
apply_after-Restarts w before after first (skipped, disk) =
    of_idle w before after after first disk disk (apply_when_idle w after disk) (λ e. inr (e, refl))
      refl
apply_after-Restarts w before after first (done, disk) =
    of_idle w before after after first disk disk (apply_when_idle w after disk) (λ e. inr (e, refl))
      refl

unless_started-Restarts :
    (w : World) (before after : ℕ) (disk second : Disk) (o : Option HelperCall)
    (rest : Option HelperCall × Disk)
    → apply_when_idle w before disk ≡ o
    → Restarts w before after disk second rest
    → Restarts w before after disk second (unless_started o disk rest)
unless_started-Restarts w before after disk second none rest e h = h
unless_started-Restarts w before after disk second (some call) rest e h =
    of_idle w before after before disk second disk (some call) (λ e'. inl (e', refl)) e

changes-Restarts :
    (w : World) (before after : ℕ) (changes : JsonObject) (disk : Disk)
    → Restarts w before after disk
        (stage w changes disk).1
        (apply_self_update_changes w before after changes disk)
unfolding apply_self_update_changes Restarts
changes-Restarts w before after [] disk = tt
changes-Restarts w before after (change ∷ changes) disk =
    unless_started-Restarts w before after disk (stage w (change ∷ changes) disk).1
      (apply_when_idle w before disk) _ refl
      (apply_after-Restarts w before after disk (stage w (change ∷ changes) disk))

checked :
    (w : World) (before after : ℕ) (first second : Disk) (call : HelperCall) (disk : Disk)
    → Restarts w before after first second (some call, disk)
    → CheckedAt before after first second disk × Checked w disk call
unfolding Restarts
checked w before after first second call disk h = h

pub broadcast_restarts :
    (goos : String) (w : World) (before after : ℕ) (payload : Payload) (disk : Disk)
    {call : HelperCall} {disk' : Disk}
    → on_broadcast_self_update goos w before after payload disk ≡ (some call, disk')
    → (is_payload_for_current_platform goos payload ≡ true)
      × CheckedAt before after disk (stage w (extract_self_update_changes payload) disk).1 disk'
      × Checked w disk' call
unfolding on_broadcast_self_update
broadcast_restarts goos w before after payload disk {call} {disk'} e =
    elim (Bool-cases (is_payload_for_current_platform goos payload)) [
      | inl ours ↦
          let e' : apply_self_update_changes w before after (extract_self_update_changes payload)
                disk
              ≡ (some call, disk') =
            rw ours at e in
          let second = (stage w (extract_self_update_changes payload) disk).1 in
          let h = checked w before after disk second call disk' (
            subst (Restarts w before after disk second) e'
              (changes-Restarts w before after (extract_self_update_changes payload) disk)) in
          (ours, h.0, h.1)
      | inr foreign ↦
          let quiet : Option HelperCall × Disk = (none, disk) in
          let clash : quiet ≡ (some call, disk') = rw foreign at e in
          let clash' : none ≡ some call = ap (λ r. r.0) clash in cc
    ]

done-stage_nothing : (w : World) (disk : Disk) → (stage w [] disk).0 ≢ done
unfolding stage stage_if_needed lookup get_text
done-stage_nothing w disk e = cc

waits_absent : (w : World) (disk : Disk) → disk.pending ≡ absent → apply_when_idle w 0 disk ≡ none
unfolding apply_when_idle apply_if_pending
waits_absent w disk e = elim (Bool-cases w.cfg.update.auto_apply) [
  | inl on ↦ simp (e, on)
  | inr off ↦ simp (e, off)
]

then_applies :
    (w : World) (disk : Disk) (r : StageResult × Disk) (call : HelperCall)
    → disk.pending ≡ absent
    → r.0 ≡ done
    → apply_if_pending w.sha256 w.starts w.cfg w.cfg_path w.service_exe r.1 ≡ restart call
    → unless_started (apply_when_idle w 0 disk) disk (apply_after w 0 r) ≡ (some call, r.1)
unfolding apply_when_idle apply_after
then_applies w disk (skipped, disk') call e q h = cc
then_applies w disk (failed, disk') call e q h = cc
then_applies w disk (done, disk') call e q h =
    ap (λ o. unless_started o disk (apply_when_idle w 0 disk', disk')) (waits_absent w disk e)
    ∙ ap (λ r. (started r, disk')) h

changes_apply :
    (w : World) (changes : JsonObject) (disk : Disk)
    → disk.pending ≡ absent
    → (stage w changes disk).0 ≡ done
    → w.cfg.update.auto_apply ≡ true
    → is_blank w.cfg.update.helper_path ≡ false
    → is_blank w.service_exe ≡ false
    → w.starts ≡ true
    → apply_self_update_changes w 0 0 changes disk ≡ (
      some (helper_call w.cfg w.cfg_path w.service_exe (staged_update w.now w.cfg changes)),
      (stage w changes disk).1,
    )
unfolding apply_self_update_changes stage
changes_apply w [] disk e fin on helper exe starts = absurd (done-stage_nothing w disk fin)
changes_apply w (change ∷ changes) disk e fin on helper exe starts =
    then_applies w disk (stage w (change ∷ changes) disk) _ e fin (
      ap
        (λ b.
          apply_if_pending w.sha256 b w.cfg w.cfg_path w.service_exe
            (stage w (change ∷ changes) disk).1)
        starts
      ∙ stage_then_apply w.server w.sha256 w.io w.now w.cfg (change ∷ changes) disk w.cfg_path
          w.service_exe fin on helper exe)

-- A broadcast for this platform, while no task and no update is pending, starts the helper at
-- once with the update that StageIfNeeded has staged from its changes, if staging succeeds,
-- applying is enabled, the paths of the helper and the service are not blank and the helper can
-- be started.
pub broadcast_applies :
    (goos : String) (w : World) (payload : Payload) (disk : Disk)
    → is_payload_for_current_platform goos payload ≡ true
    → disk.pending ≡ absent
    → (stage w (extract_self_update_changes payload) disk).0 ≡ done
    → w.cfg.update.auto_apply ≡ true
    → is_blank w.cfg.update.helper_path ≡ false
    → is_blank w.service_exe ≡ false
    → w.starts ≡ true
    → on_broadcast_self_update goos w 0 0 payload disk ≡ (
      some (
          helper_call w.cfg w.cfg_path w.service_exe
            (staged_update w.now w.cfg (extract_self_update_changes payload))),
      (stage w (extract_self_update_changes payload) disk).1,
    )
unfolding on_broadcast_self_update
broadcast_applies goos w payload disk ours e fin on helper exe starts =
    rw ours (changes_apply w (extract_self_update_changes payload) disk e fin on helper exe starts)

lookup-copy_key :
    (key k : String) (source changes : JsonObject)
    → lookup key changes ≡ none
    → lookup k (copy_key key source changes)
      ≡ (if key == k then lookup key source else lookup k changes)
unfolding copy_key
lookup-copy_key key k source changes fresh = by_value (lookup key source)
  where
    by_value :
        (o : Option Json)
        → lookup k (set_key key o changes) ≡ (if key == k then o else lookup k changes)
    by_value (some v) = lookup-insert key k v changes
    by_value none = elim (Bool-cases (key == k)) [
      | inl same ↦
          rw same (subst (λ j. lookup j changes ≡ none) ((string_eq.test_iff key k).0 same) fresh)
      | inr differ ↦ rw differ refl
    ]

pub poll_restarts :
    (w : World) (pending : ℕ) (config : Option JsonObject) (disk : Disk) {call : HelperCall}
    → (on_poll_result w pending config disk).0 ≡ some call
    → (pending ≡ 0)
      × ((on_poll_result w pending config disk).1 ≡ disk)
      × Checked w (on_poll_result w pending config disk).1 call
unfolding on_poll_result
poll_restarts w pending config disk {call} e = by_start (apply_when_idle w pending disk) refl e
  where
    by_start :
        (o : Option HelperCall)
        → apply_when_idle w pending disk ≡ o
        → (unless_started o disk (none, (stage w (or_no_changes config) disk).1)).0 ≡ some call
        → (pending ≡ 0)
          × ((unless_started o disk (none, (stage w (or_no_changes config) disk).1)).1 ≡ disk)
          × Checked w (unless_started o disk (none, (stage w (or_no_changes config) disk).1)).1 call
    by_start none q e = cc
    by_start (some c) q e = let h = idle-Checked w pending disk call (q ∙ e) in (h.0, refl, h.1)

-- what may start an update: a broadcast of the server, or the configuration of a heartbeat
pub data Trigger : Type 0 where
  broadcast : Payload → Trigger
  polled : Option JsonObject → Trigger

unfoldable pub update_on : Trigger → String → World → ℕ → ℕ → Disk → Option HelperCall × Disk
update_on (broadcast payload) goos w before after disk =
    on_broadcast_self_update goos w before after payload disk
update_on (polled config) goos w before after disk = on_poll_result w before config disk

-- no task is pending at the check of the disk that results, and a broadcast is for this platform
abbrev pub IsAdmitted : Trigger → String → World → ℕ → ℕ → Disk → Disk → Type 0
IsAdmitted (broadcast payload) goos w before after disk disk' =
    (is_payload_for_current_platform goos payload ≡ true)
    × CheckedAt before after disk (stage w (extract_self_update_changes payload) disk).1 disk'
IsAdmitted (polled config) goos w before after disk disk' = (before ≡ 0) × (disk' ≡ disk)

-- If a broadcast of an update or a result of the heartbeat leads to a call of the update helper,
-- a broadcast was for this platform, and no task was pending at the check before this call: at
-- the first one, and the disk is as it was, or, on a broadcast, at the second one, and the disk
-- is what StageIfNeeded has left. That disk holds metadata of an update that is newer or forced,
-- whose file has its hash, and which the helper was called with.
pub update_on-IsAdmitted :
    (t : Trigger) (goos : String) (w : World) (before after : ℕ) (disk disk' : Disk)
    {call : HelperCall}
    → update_on t goos w before after disk ≡ (some call, disk')
    → IsAdmitted t goos w before after disk disk' × Checked w disk' call
unfolding update_on
update_on-IsAdmitted (broadcast payload) goos w before after disk disk' e =
    let h = broadcast_restarts goos w before after payload disk e in ((h.0, h.1), h.2)
update_on-IsAdmitted (polled config) goos w before after disk disk' {call} e =
    let h = poll_restarts w before config disk (ap (λ r. r.0) e) in
    (
      (h.0, subst (λ d. d ≡ disk) (ap (λ r. r.1) e) h.1),
      subst (λ d. Checked w d call) (ap (λ r. r.1) e) h.2,
    )
