-- ===== src/RuntimeUpdate/Settling.antt =====
-- A sync without an error brings the programs to the versions of the manifest.
use appcenter_agent.Common.{
  ℕ, String, ◌≡◌, refl, sym, ap, ◌∙◌, subst, inl, inr, Bool, true, false, not, ◌&&◌, Option, none,
  some, List, if◌then◌else◌, Bool-cases, ◌==◌, nat_eq, int_eq, string_eq, is_blank,
}
use appcenter_agent.Common.Dict.{lookup, insert, delete, lookup-delete, lookup-insert_self}
use appcenter_agent.Common.Text.{trim_space, join}
use appcenter_agent.Files.{Bytes, Files, verify_file_hash, verdict}
use appcenter_agent.RuntimeUpdate.{
  RuntimeConfig, ManifestFile, Reply, Situation, replace_file, temp_path, install_temp, on_reply,
  is_valid, file_url, ensure_file,
}
use appcenter_agent.RuntimeUpdate.Replacing.{Apart, replaced}
use appcenter_agent.RuntimeUpdate.Loop.{
  Manifest, tray_exe, helper_exe, Answers, fetch_manifest, then_helper, sync_with, sync_once,
}
use appcenter_agent.RuntimeUpdate.Origin.{
  Program, tray_program, helper_program, name_of, situation_of, Separate, untouched,
}

-- The program has the hash that the manifest asks for.
abbrev pub IsCurrent : (Bytes → List ℕ) → String → String → Files → Type 0
IsCurrent sha256 expected dst files =
    (b : Bytes) × (lookup dst files ≡ some b) × (verdict sha256 expected (some b) ≡ some true)

module _ (sha256 : Bytes → List ℕ) (w : Situation) (is_helper : Bool) (dst expected : String)
    (d : Apart dst) (free : is_helper && w.running ≡ false) where
  by_lookup :
      (files : Files) (o : Option Bytes)
      → lookup dst files ≡ o
      → is_valid (verdict sha256 expected o) ≡ true
      → IsCurrent sha256 expected dst files
  unfolding verdict
  by_lookup files none e h = let clash : false ≡ true = h in cc
  by_lookup files (some b) e h = (b, e, valid (verdict sha256 expected (some b)) h)
    where
      valid : (v : Option Bool) → is_valid v ≡ true → v ≡ some true
      valid none h = let clash : false ≡ true = h in cc
      valid (some true) h = refl
      valid (some false) h = let clash : false ≡ true = h in cc

  -- either branch, where no error is what brings the program up to date
  Settles : Bool × Files → Type 0
  Settles r = r.0 ≡ true → IsCurrent sha256 expected dst r.1

  either-Settles :
      (b : Bool) (x y : Bool × Files)
      → (b ≡ true → Settles x)
      → (b ≡ false → Settles y)
      → Settles (if b then x else y)
  unfolding Settles
  either-Settles true x y f g = f refl
  either-Settles false x y f g = g refl

  failed : (files : Files) → Settles (false, files)
  unfolding Settles
  failed files h = let clash : false ≡ true = h in cc

  swapped : (files : Files) → (replace_file w dst (temp_path dst) files).0 ≡ true → w.swaps ≡ true
  unfolding replace_file
  swapped files h = elim (Bool-cases w.swaps) [
    | inl e ↦ e
    | inr e ↦ let clash : false ≡ true = rw e at h in cc
  ]

  install-Settles :
      (files : Files) (b : Bytes) (v : Option Bool)
      → lookup (temp_path dst) files ≡ some b
      → verdict sha256 expected (some b) ≡ v
      → Settles (install_temp w is_helper dst v files)
  unfolding install_temp Settles
  install-Settles files b none there e h = let clash : false ≡ true = h in cc
  install-Settles files b (some false) there e h = let clash : false ≡ true = h in cc
  install-Settles files b (some true) there e h =
      let r = replace_file w dst (temp_path dst) files in
      either-Settles (is_helper && w.running) (true, delete (temp_path dst) files)
        (r.0, delete (temp_path dst) r.1)
        (λ running. absurd (let clash : true ≡ false = sym running ∙ free in cc))
        (λ idle h.
          (b, rw (lookup-delete, d.2) (replaced dst files d w b (swapped files h) there), e))
        h

  verdict_of :
      (files : Files) (b : Bytes)
      → lookup (temp_path dst) files ≡ some b
      → verdict sha256 expected (some b) ≡ verify_file_hash sha256 files (temp_path dst) expected
  unfolding verify_file_hash
  verdict_of files b e = sym (ap (verdict sha256 expected) e)

  reply-Settles :
      (o : Option Reply) (files : Files)
      → Settles (on_reply sha256 w is_helper dst expected o files)
  unfolding on_reply
  reply-Settles none files = failed files
  reply-Settles (some r) files =
      let files' = insert (temp_path dst) r.body files in
      let held = lookup-insert_self (temp_path dst) r.body files in
      let v = verify_file_hash sha256 files' (temp_path dst) expected in
      let installed = install_temp w is_helper dst v files' in
      either-Settles (not (r.status == 200)) (false, files)
        (if r.broken then (false, files') else installed) (λ e. failed files)
        (λ e.
          either-Settles r.broken (false, files') installed (λ e. failed files')
            (λ e. install-Settles files' r.body v held (verdict_of files' r.body held)))

  valid-Settles :
      (files : Files)
      → is_valid (verify_file_hash sha256 files dst expected) ≡ true
      → Settles (true, files)
  unfolding verify_file_hash Settles
  valid-Settles files e h = by_lookup files (lookup dst files) refl e

module _ (server : String → Option Reply) (sha256 : Bytes → List ℕ) (w : Situation)
    (cfg : RuntimeConfig) (exe_dir name : String) (manifest : Manifest) where
  ensure_settles :
      (entry : ManifestFile) (files : Files)
      → Apart (join exe_dir name)
      → (name == "rshelper.exe") && w.running ≡ false
      → lookup name manifest ≡ some entry
      → is_blank (trim_space entry.sha256_text) ≡ false
      → (ensure_file server sha256 w cfg manifest exe_dir name files).0 ≡ true
      → IsCurrent sha256
          (trim_space entry.sha256_text)
          (join exe_dir name)
          (ensure_file server sha256 w cfg manifest exe_dir name files).1
  unfolding ensure_file Settles
  ensure_settles entry files d free found asked =
      let expected = trim_space entry.sha256_text in
      let dst = join exe_dir name in
      let got =
        on_reply sha256 w (name == "rshelper.exe") dst expected (server (file_url cfg name entry))
          files in
      let valid = is_valid (verify_file_hash sha256 files dst expected) in
      rw (found, asked)
        (either-Settles sha256 w (name == "rshelper.exe") dst expected d free valid (true, files)
          got (valid-Settles sha256 w (name == "rshelper.exe") dst expected d free files)
          (λ e.
            reply-Settles sha256 w (name == "rshelper.exe") dst expected d free
              (server (file_url cfg name entry)) files))

module _ (decode : Bytes → Bool → Option (Option Manifest)) (sha256 : Bytes → List ℕ)
    (exe_dir : String) (a : Answers) (cfg : RuntimeConfig) (manifest : Manifest) where
  helper_settles :
      (p : Program) (entry : ManifestFile) (files : Files) (r : Bool × Files)
      → Separate exe_dir
      → (name_of p == "rshelper.exe") && (situation_of p a).running ≡ false
      → lookup (name_of p) manifest ≡ some entry
      → is_blank (trim_space entry.sha256_text) ≡ false
      → r ≡ ensure_file a.server sha256 a.tray cfg manifest exe_dir tray_exe files
      → (then_helper decode sha256 exe_dir a cfg manifest r).0 ≡ true
      → IsCurrent sha256
          (trim_space entry.sha256_text)
          (join exe_dir (name_of p))
          (then_helper decode sha256 exe_dir a cfg manifest r).1
  helper_settles p entry files (false, files') d free found asked same h =
      let clash : false ≡ true = h in cc
  helper_settles tray_program entry files (true, files') d free found asked same h =
      let (b, held, good) =
        ensure_settles a.server sha256 a.tray cfg exe_dir tray_exe manifest entry files d.0 free
          found asked (sym (ap (λ (r : Bool × Files). r.0) same)) in
      let before = ap (λ (r : Bool × Files). lookup (join exe_dir tray_exe) r.1) same in
      let kept =
        untouched decode sha256 exe_dir tray_program helper_program a a.helper cfg manifest files'
          d.1 d.2 in
      (b, kept ∙ before ∙ held, good)
  helper_settles helper_program entry files (true, files') d free found asked same h =
      ensure_settles a.server sha256 a.helper cfg exe_dir helper_exe manifest entry files' d.1 free
        found asked h

  -- If syncOnce returns no error, a program for which the manifest asks for a hash that is not
  -- blank has bytes with that hash under its path, unless it is the helper of remote support and
  -- this is running. The paths of the two programs, their backups and their downloads differ.
  pub sync_settles :
      (p : Program) (entry : ManifestFile) (files : Files)
      → Separate exe_dir
      → (name_of p == "rshelper.exe") && (situation_of p a).running ≡ false
      → fetch_manifest decode sha256 exe_dir a cfg ≡ some manifest
      → lookup (name_of p) manifest ≡ some entry
      → is_blank (trim_space entry.sha256_text) ≡ false
      → (sync_once decode sha256 exe_dir a cfg files).0 ≡ true
      → IsCurrent sha256
          (trim_space entry.sha256_text)
          (join exe_dir (name_of p))
          (sync_once decode sha256 exe_dir a cfg files).1
  unfolding sync_once
  sync_settles p entry files d free fetched found asked =
      subst
        (λ o.
          (sync_with decode sha256 exe_dir a cfg files o).0 ≡ true
          → IsCurrent sha256 (trim_space entry.sha256_text) (join exe_dir (name_of p))
              (sync_with decode sha256 exe_dir a cfg files o).1)
        (sym fetched)
        (helper_settles p entry files
          (ensure_file a.server sha256 a.tray cfg manifest exe_dir tray_exe files) d free found
          asked refl)
