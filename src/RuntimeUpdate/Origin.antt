-- ===== src/RuntimeUpdate/Origin.antt =====
-- Where the programs that the loop of the runtime updates leaves come from.
use appcenter_agent.Common.{
  ℕ, String, ◌≡◌, refl, sym, ◌∙◌, subst, ◌⊎◌, inl, inr, Bool, true, false, not, Option, none, some,
  List, [], ◌∷◌, if◌then◌else◌, nat_eq, int_eq, string_eq, is_blank,
}
use appcenter_agent.Common.Dict.{lookup}
use appcenter_agent.Common.Text.{join}
use appcenter_agent.Files.{Bytes, Files, verdict}
use appcenter_agent.RuntimeUpdate.{RuntimeConfig, Situation, ensure_file}
use appcenter_agent.RuntimeUpdate.Replacing.{Apart}
use appcenter_agent.RuntimeUpdate.Safety.{Safe, trimmed_hash, Recoverable, ensure_file-Safe}
use appcenter_agent.RuntimeUpdate.Loop.{
  Manifest, tray_exe, helper_exe, Answers, State, update_config, Event, configure, turn,
  fetch_manifest, then_helper, sync_with, sync_once, take_turn, run,
}
use appcenter_agent.RuntimeUpdate.Untouched.{Outside, entry-other}

pub data Program : Type 0 where
  tray_program : Program
  helper_program : Program

abbrev pub name_of : Program → String
name_of tray_program = tray_exe
name_of helper_program = helper_exe

abbrev pub situation_of : Program → Answers → Situation
situation_of tray_program a = a.tray
situation_of helper_program a = a.helper

-- The paths of the two programs, their backups and their downloads are six different ones.
abbrev pub Separate : String → Type 0
Separate exe_dir =
    Apart (join exe_dir tray_exe)
    × Apart (join exe_dir helper_exe)
    × Outside (join exe_dir tray_exe) (join exe_dir helper_exe)
    × Outside (join exe_dir helper_exe) (join exe_dir tray_exe)

module _ (decode : Bytes → Bool → Option (Option Manifest)) (sha256 : Bytes → List ℕ)
    (exe_dir : String) where
  -- The bytes have the hash of the program in the manifest that these answers bring.
  abbrev pub IsOffered : Program → Option Bytes → Answers → Type 0
  IsOffered p content a =
      (cfg : RuntimeConfig) × (manifest : Manifest) × (b : Bytes) × (fetch_manifest decode sha256
          exe_dir a cfg
        ≡ some manifest)
      × (content ≡ some b)
      × (verdict sha256 (trimmed_hash (lookup (name_of p) manifest)) (some b) ≡ some true)

  abbrev pub SomeTurn : (Answers → Type 0) → List Event → Type 0
  SomeTurn P [] = ⊥
  SomeTurn P (configure cfg ∷ events) = SomeTurn P events
  SomeTurn P (turn a drawn ∷ events) = P a ⊎ SomeTurn P events

  abbrev pub EveryTurn : (Answers → Type 0) → List Event → Type 0
  EveryTurn P [] = Unit
  EveryTurn P (configure cfg ∷ events) = EveryTurn P events
  EveryTurn P (turn a drawn ∷ events) = P a × EveryTurn P events

  abbrev path_of : Program → String
  path_of p = join exe_dir (name_of p)

  -- the program as it was, or as the answers offer it
  abbrev Stays : Program → Answers → Files → Files → Type 0
  Stays p a files files' =
      (lookup (path_of p) files' ≡ lookup (path_of p) files)
      ⊎ IsOffered p (lookup (path_of p) files') a

  of_Safe :
      (p : Program) (a : Answers) (cfg : RuntimeConfig) (manifest : Manifest) (files files' : Files)
      → fetch_manifest decode sha256 exe_dir a cfg ≡ some manifest
      → Safe sha256 (trimmed_hash (lookup (name_of p) manifest)) (path_of p) files files'
      → Stays p a files files'
  of_Safe p a cfg manifest files files' e (inl same) = inl same
  of_Safe p a cfg manifest files files' e (inr (b, held, good)) =
      inr (cfg, manifest, b, e, held, good)

  before :
      (p : Program) (a : Answers) (files files' files'' : Files)
      → lookup (path_of p) files' ≡ lookup (path_of p) files
      → Stays p a files' files''
      → Stays p a files files''
  before p a files files' files'' same (inl e) = inl (e ∙ same)
  before p a files files' files'' same (inr h) = inr h

  after :
      (p : Program) (a : Answers) (files files' files'' : Files)
      → Stays p a files files'
      → lookup (path_of p) files'' ≡ lookup (path_of p) files'
      → Stays p a files files''
  after p a files files' files'' (inl e) same = inl (same ∙ e)
  after p a files files' files'' (inr (cfg, manifest, b, e, held, good)) same =
      inr (cfg, manifest, b, e, same ∙ held, good)

  either-Stays :
      (p : Program) (a : Answers) (files : Files) (b : Bool) (x y : Bool × Files)
      → Stays p a files x.1
      → Stays p a files y.1
      → Stays p a files (if b then x else y).1
  either-Stays p a files true x y h k = h
  either-Stays p a files false x y h k = k

  ensured :
      (p : Program) (a : Answers) (w : Situation) (cfg : RuntimeConfig) (manifest : Manifest)
      (files : Files)
      → Apart (path_of p)
      → Recoverable w
      → fetch_manifest decode sha256 exe_dir a cfg ≡ some manifest
      → Stays p a files (ensure_file a.server sha256 w cfg manifest exe_dir (name_of p) files).1
  ensured p a w cfg manifest files d ok e =
      of_Safe p a cfg manifest files _ e
        (ensure_file-Safe a.server sha256 w cfg manifest exe_dir (name_of p) files d ok)

  pub untouched :
      (p q : Program) (a : Answers) (w : Situation) (cfg : RuntimeConfig) (manifest : Manifest)
      (files : Files)
      → Apart (path_of q)
      → Outside (path_of p) (path_of q)
      → lookup (path_of p) (ensure_file a.server sha256 w cfg manifest exe_dir (name_of q) files).1
        ≡ lookup (path_of p) files
  unfolding ensure_file
  untouched p q a w cfg manifest files d out =
      entry-other (path_of p) (path_of q) d out a.server sha256 w cfg (name_of q)
        (lookup (name_of q) manifest) files

  helper-Stays :
      (p : Program) (a : Answers) (cfg : RuntimeConfig) (manifest : Manifest) (files : Files)
      (r : Bool × Files)
      → Separate exe_dir
      → Recoverable (situation_of p a)
      → fetch_manifest decode sha256 exe_dir a cfg ≡ some manifest
      → r ≡ ensure_file a.server sha256 a.tray cfg manifest exe_dir tray_exe files
      → Stays p a files (then_helper decode sha256 exe_dir a cfg manifest r).1
  helper-Stays tray_program a cfg manifest files (ok, files') d safe e same =
      let tray : Stays tray_program a files files' =
        subst (λ (r : Bool × Files). Stays tray_program a files r.1) (sym same)
          (ensured tray_program a a.tray cfg manifest files d.0 safe e) in
      either-Stays tray_program a files (not ok) (false, files')
        (ensure_file a.server sha256 a.helper cfg manifest exe_dir helper_exe files') tray
        (after tray_program a files files' _ tray
          (untouched tray_program helper_program a a.helper cfg manifest files' d.1 d.2))
  helper-Stays helper_program a cfg manifest files (ok, files') d safe e same =
      let kept : lookup (path_of helper_program) files' ≡ lookup (path_of helper_program) files =
        subst
          (λ (r : Bool × Files).
            lookup (path_of helper_program) r.1 ≡ lookup (path_of helper_program) files)
          (sym same) (untouched helper_program tray_program a a.tray cfg manifest files d.0 d.3) in
      either-Stays helper_program a files (not ok) (false, files')
        (ensure_file a.server sha256 a.helper cfg manifest exe_dir helper_exe files') (inl kept)
        (before helper_program a files files' _ kept
          (ensured helper_program a a.helper cfg manifest files' d.1 safe e))

  sync-Stays :
      (p : Program) (a : Answers) (cfg : RuntimeConfig) (files : Files)
      → Separate exe_dir
      → Recoverable (situation_of p a)
      → Stays p a files (sync_once decode sha256 exe_dir a cfg files).1
  unfolding sync_once
  sync-Stays p a cfg files d safe = fetched (fetch_manifest decode sha256 exe_dir a cfg) refl
    where
      fetched :
          (o : Option Manifest)
          → fetch_manifest decode sha256 exe_dir a cfg ≡ o
          → Stays p a files (sync_with decode sha256 exe_dir a cfg files o).1
      fetched none e = inl refl
      fetched (some manifest) e =
          helper-Stays p a cfg manifest files
            (ensure_file a.server sha256 a.tray cfg manifest exe_dir tray_exe files) d safe e refl

  turn-Stays :
      (p : Program) (a : Answers) (drawn : ℕ) (s : State)
      → Separate exe_dir
      → Recoverable (situation_of p a)
      → Stays p a s.files (take_turn decode sha256 exe_dir a drawn s).1.files
  unfolding take_turn
  turn-Stays p a drawn s d safe =
      either-Stays p a s.files (is_blank s.cfg.base_url) (true, s.files)
        (sync_once decode sha256 exe_dir a s.cfg s.files) (inl refl)
        (sync-Stays p a s.cfg s.files d safe)

  -- However the configuration of the runtime updates is changed and whatever is answered in the
  -- turns of the loop, if in each of them the new file can be put in place, or else an old
  -- backup removed and the old file put aside and back, the program is as it was at first, or
  -- the manifest of some turn asks for the hash of its bytes. The paths of the two programs,
  -- their backups and their downloads differ.
  pub run_origin :
      (p : Program) (events : List Event) (s : State)
      → Separate exe_dir
      → EveryTurn (λ a. Recoverable (situation_of p a)) events
      → (lookup (join exe_dir (name_of p)) (run decode sha256 exe_dir events s).files
          ≡ lookup (join exe_dir (name_of p)) s.files)
        ⊎ SomeTurn
            (IsOffered p
              (lookup (join exe_dir (name_of p)) (run decode sha256 exe_dir events s).files))
            events
  unfolding run update_config
  run_origin p [] s d safe = inl refl
  run_origin p (configure cfg ∷ events) s d safe = run_origin p events (update_config cfg s) d safe
  run_origin p (turn a drawn ∷ events) s d safe =
      let s' = (take_turn decode sha256 exe_dir a drawn s).1 in
      elim (run_origin p events s' d safe.1) [
        | inr later ↦ inr (inr later)
        | inl same ↦ elim (after p a s.files s'.files _ (turn-Stays p a drawn s d safe.0) same) [
          | inl first ↦ inl first
          | inr offered ↦ inr (inl offered)
        ]
      ]
