-- ===== src/Updater/Applying.antt =====
-- What ApplyIfPending applies, and that it applies what was staged.
use appcenter_agent.Common.{
  ℕ, String, ◌≡◌, refl, sym, ap, subst, ◌≢◌, ◌⊎◌, inl, inr, Bool, true, false, not, ◌&&◌, ◌||◌,
  Option, none, some, List, arith, if◌then◌else◌, Bool-cases, nat_eq, int_eq, string_eq, is_blank,
}
use appcenter_agent.Common.Text.{append, join}
use appcenter_agent.Json.{JsonObject}
use appcenter_agent.Files.{Bytes, verify_file_hash}
use appcenter_agent.Config.{Config}
use appcenter_agent.Updater.Order.{newer_irrefl}
use appcenter_agent.Downloader.{Server}
use appcenter_agent.Updater.Version.{is_newer_version, sanitize_version}
use appcenter_agent.Updater.{
  StagedUpdate, Pending, absent, unreadable, staged, Disk, Storage, done, latest_version,
  staged_path, staged_update, stage_if_needed, HelperCall, ApplyResult, nothing, refused, restart,
  load_staged_update, helper_call, start_helper, apply_staged, is_absent, apply_if_pending,
}
use appcenter_agent.Updater.Staging.{Staged, either, stage_lem}

new_enough : (a b : Bool) → (a ≡ true) ⊎ (b ≡ true) → not a && not b ≡ false
new_enough a b (inl e) = simp e
new_enough true b (inr e) = refl
new_enough false b (inr e) = simp e

all_given : (a b c : Bool) → a ≡ false → b ≡ false → c ≡ false → a || b || c ≡ false
all_given a b c e e' e'' = simp (e, e', e'')

-- When ApplyIfPending may restart the service.
abbrev pub Applicable : (Bytes → List ℕ) → Config → String → Disk → StagedUpdate → Type 0
Applicable sha256 cfg exe disk m =
    (disk.pending ≡ staged m)
    × (cfg.update.auto_apply ≡ true)
    × ((m.force ≡ true) ⊎ (is_newer_version m.version cfg.agent.version ≡ true))
    × (verify_file_hash sha256 disk.files m.file_path m.hash ≡ some true)

call_or : HelperCall → ApplyResult → HelperCall
call_or c (restart d) = d
call_or c refused = c
call_or c nothing = c

restart-injective : (c d : HelperCall) → restart c ≡ restart d → c ≡ d
unfolding call_or
restart-injective c d e = ap (call_or c) e

-- a test that was passed
passed :
    (b : Bool) (r s : ApplyResult) (call : HelperCall)
    → ((d : HelperCall) → r ≢ restart d)
    → (if b then r else s) ≡ restart call
    → (b ≡ false) × (s ≡ restart call)
passed true r s call stuck e = elim (stuck call e) [ ]
passed false r s call stuck e = (refl, e)

start_checks :
    (starts : Bool) (cfg : Config) (cfg_path exe : String) (m : StagedUpdate) (v : Option Bool)
    (call : HelperCall)
    → start_helper starts cfg cfg_path exe m v ≡ restart call
    → (v ≡ some true) × (call ≡ helper_call cfg cfg_path exe m)
start_checks starts cfg cfg_path exe m none call e = ground arith
start_checks starts cfg cfg_path exe m (some false) call e = ground arith
start_checks starts cfg cfg_path exe m (some true) call e = (
  refl,
  sym (
      restart-injective _ _
        (passed (is_blank cfg.update.helper_path || is_blank exe || not starts) refused
          (restart (helper_call cfg cfg_path exe m)) call (λ d e'. ground arith) e).1),
)

-- If ApplyIfPending restarts the service, applying is enabled, the metadata names a version that
-- is newer than the own one or forced, the staged file has its hash, and the helper was called
-- with this file and version.
pub apply_checks :
    (sha256 : Bytes → List ℕ) (starts : Bool) (cfg : Config) (cfg_path exe : String) (disk : Disk)
    (call : HelperCall)
    → apply_if_pending sha256 starts cfg cfg_path exe disk ≡ restart call
    → (m : StagedUpdate) × Applicable sha256 cfg exe disk m
      × (call ≡ helper_call cfg cfg_path exe m)
unfolding apply_if_pending
apply_checks sha256 starts cfg cfg_path exe disk call e =
    let h =
      passed (not cfg.update.auto_apply || is_absent disk.pending) nothing
        (apply_staged sha256 starts cfg cfg_path exe disk.files (load_staged_update disk.pending))
        call (λ d e'. ground arith) e in
    from_pending disk.pending refl (enabled cfg.update.auto_apply (is_absent disk.pending) h.0) h.1
  where
    enabled : (a b : Bool) → not a || b ≡ false → a ≡ true
    enabled a b h = ground arith

    from_meta :
        (m : StagedUpdate)
        → disk.pending ≡ staged m
        → cfg.update.auto_apply ≡ true
        → apply_staged sha256 starts cfg cfg_path exe disk.files (some m) ≡ restart call
        → (n : StagedUpdate) × Applicable sha256 cfg exe disk n
          × (call ≡ helper_call cfg cfg_path exe n)
    from_meta m eq on h =
        let p =
          passed (not m.force && not (is_newer_version m.version cfg.agent.version)) nothing
            (start_helper starts cfg cfg_path exe m
              (verify_file_hash sha256 disk.files m.file_path m.hash))
            call (λ d e'. ground arith) h in
        let q = start_checks starts cfg cfg_path exe m _ call p.1 in
        (m, (eq, on, either m.force (is_newer_version m.version cfg.agent.version) p.0, q.0), q.1)

    from_pending :
        (p : Pending)
        → disk.pending ≡ p
        → cfg.update.auto_apply ≡ true
        → apply_staged sha256 starts cfg cfg_path exe disk.files (load_staged_update p)
          ≡ restart call
        → (n : StagedUpdate) × Applicable sha256 cfg exe disk n
          × (call ≡ helper_call cfg cfg_path exe n)
    from_pending absent eq on h = ground arith
    from_pending unreadable eq on h = ground arith
    from_pending (staged m) eq on h =
        elim (Bool-cases (is_blank m.version || is_blank m.file_path || is_blank m.hash)) [
          | inl bad ↦
              let h' : apply_staged sha256 starts cfg cfg_path exe disk.files none ≡ restart call =
                rw bad at h in
              ground arith
          | inr good ↦ from_meta m eq on (rw good at h)
        ]

join_not_blank : (dir name : String) → is_blank name ≡ false → is_blank (join dir name) ≡ false
join_not_blank String.[] name e = e
join_not_blank (String.◌∷◌ c dir) name e = refl

applies :
    (sha256 : Bytes → List ℕ) (cfg : Config) (cfg_path exe : String) (disk : Disk)
    (m : StagedUpdate)
    → Applicable sha256 cfg exe disk m
    → is_blank m.version || is_blank m.file_path || is_blank m.hash ≡ false
    → is_blank cfg.update.helper_path ≡ false
    → is_blank exe ≡ false
    → apply_if_pending sha256 true cfg cfg_path exe disk ≡ restart (helper_call cfg cfg_path exe m)
unfolding apply_if_pending
applies sha256 cfg cfg_path exe disk m (eq, on, new, hash) given helper exe' =
    rw (eq, on, given, new_enough m.force _ new, hash, helper, exe') refl

-- An update that StageIfNeeded has staged is applied by the next ApplyIfPending, with the staged
-- file, where applying is enabled, the paths of the helper and the service are not blank and the
-- helper can be started.
pub stage_then_apply :
    (server : Server) (sha256 : Bytes → List ℕ) (io : Storage) (now : ℕ) (cfg : Config)
    (hb : JsonObject) (disk : Disk) (cfg_path exe : String)
    → (stage_if_needed server sha256 io now cfg hb disk).0 ≡ done
    → cfg.update.auto_apply ≡ true
    → is_blank cfg.update.helper_path ≡ false
    → is_blank exe ≡ false
    → apply_if_pending sha256 true cfg cfg_path exe
        (stage_if_needed server sha256 io now cfg hb disk).1
      ≡ restart (helper_call cfg cfg_path exe (staged_update now cfg hb))
unfolding staged_path
stage_then_apply server sha256 io now cfg hb disk cfg_path exe fin on helper exe' =
    let s : Staged sha256 io.writes now cfg hb disk done
        (stage_if_needed server sha256 io now cfg hb disk).1 =
      subst
        (λ r.
          Staged sha256 io.writes now cfg hb disk r
            (stage_if_needed server sha256 io now cfg hb disk).1)
        fin (stage_lem server sha256 io now cfg hb disk) in
    applies sha256 cfg cfg_path exe (stage_if_needed server sha256 io now cfg hb disk).1
      (staged_update now cfg hb) (s.0, on, s.2, s.1)
      (all_given _ _ _ s.3
        (join_not_blank cfg.download.temp_dir
          (append "agent-update-" (append (sanitize_version (latest_version hb)) ".exe")) refl)
        s.4)
      helper exe'

-- Complete metadata of an update that is not forced is left alone once the service has its
-- version, and so is any while applying is disabled.
pub apply_settles :
    (sha256 : Bytes → List ℕ) (starts : Bool) (cfg : Config) (cfg_path exe : String) (disk : Disk)
    (m : StagedUpdate)
    → disk.pending ≡ staged m
    → is_blank m.version || is_blank m.file_path || is_blank m.hash ≡ false
    → (cfg.update.auto_apply ≡ false) ⊎ ((m.force ≡ false) × (m.version ≡ cfg.agent.version))
    → apply_if_pending sha256 starts cfg cfg_path exe disk ≡ nothing
unfolding apply_if_pending
apply_settles sha256 starts cfg cfg_path exe disk m eq given (inl off) = rw off refl
apply_settles sha256 starts cfg cfg_path exe disk m eq given (inr (free, same)) =
    elim (Bool-cases cfg.update.auto_apply) [
      | inl on ↦ rw (on, eq, given, free, same, newer_irrefl cfg.agent.version) refl
      | inr off ↦ rw off refl
    ]
