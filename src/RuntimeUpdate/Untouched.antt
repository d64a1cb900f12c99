-- ===== src/RuntimeUpdate/Untouched.antt =====
-- What an update of one program leaves as it is.
use appcenter_agent.Common.{
  ℕ, String, ◌≡◌, refl, ◌∙◌, Bool, true, false, not, ◌&&◌, Option, none, some, List, if◌then◌else◌,
  ◌==◌, nat_eq, int_eq, string_eq, is_blank,
}
use appcenter_agent.Common.Dict.{lookup, insert, delete, lookup-insert, lookup-delete}
use appcenter_agent.Common.Text.{trim_space}
use appcenter_agent.Files.{Bytes, Files, verify_file_hash}
use appcenter_agent.RuntimeUpdate.{
  RuntimeConfig, ManifestFile, Reply, Situation, moved, rename, backup_path, set_aside,
  replace_file, temp_path, install_temp, on_reply, is_valid, file_url, ensure_entry,
}
use appcenter_agent.RuntimeUpdate.Replacing.{Apart, aside_other}

-- The path is not one that an update of the program under `dst` writes.
abbrev pub Outside : String → String → Type 0
Outside p dst = (backup_path dst == p ≡ false) × (dst == p ≡ false) × (temp_path dst == p ≡ false)

module _ (p dst : String) (d : Apart dst) (out : Outside p dst) where
  either_other :
      (b : Bool) (x y : Bool × Files) {o : Option Bytes}
      → lookup p x.1 ≡ o
      → lookup p y.1 ≡ o
      → lookup p (if b then x else y).1 ≡ o
  either_other true x y e e' = e
  either_other false x y e e' = e'

  without_temp : (files : Files) → lookup p (delete (temp_path dst) files) ≡ lookup p files
  without_temp files = rw (lookup-delete, out.2) refl

  rename-other :
      (allowed : Bool) (src to : String) (files : Files)
      → src == p ≡ false
      → to == p ≡ false
      → lookup p (rename allowed src to files).1 ≡ lookup p files
  rename-other false src to files h h' = refl
  rename-other true src to files h h' = by_content (lookup src files)
    where
      by_content : (o : Option Bytes) → lookup p (moved o src to files).1 ≡ lookup p files
      by_content none = refl
      by_content (some b) = rw (lookup-insert, h', lookup-delete, h) refl

  replace-other :
      (w : Situation) (files : Files)
      → lookup p (replace_file w dst (temp_path dst) files).1 ≡ lookup p files
  unfolding replace_file
  replace-other w files =
      let aside = set_aside w dst files in
      let same = aside_other dst files d w p out.0 out.1 in
      let swap = rename w.swaps (temp_path dst) dst aside in
      either_other swap.0 swap (false, (rename w.restores (backup_path dst) dst aside).1)
        (rename-other w.swaps (temp_path dst) dst aside out.2 out.1 ∙ same)
        (rename-other w.restores (backup_path dst) dst aside out.0 out.1 ∙ same)

  install-other :
      (w : Situation) (is_helper : Bool) (v : Option Bool) (files : Files)
      → lookup p (install_temp w is_helper dst v files).1 ≡ lookup p files
  unfolding install_temp
  install-other w is_helper none files = without_temp files
  install-other w is_helper (some false) files = without_temp files
  install-other w is_helper (some true) files =
      let r = replace_file w dst (temp_path dst) files in
      either_other (is_helper && w.running) (true, delete (temp_path dst) files)
        (r.0, delete (temp_path dst) r.1) (without_temp files)
        (without_temp r.1 ∙ replace-other w files)

  reply-other :
      (sha256 : Bytes → List ℕ) (w : Situation) (is_helper : Bool) (expected : String)
      (o : Option Reply) (files : Files)
      → lookup p (on_reply sha256 w is_helper dst expected o files).1 ≡ lookup p files
  unfolding on_reply
  reply-other sha256 w is_helper expected none files = refl
  reply-other sha256 w is_helper expected (some r) files =
      let files' = insert (temp_path dst) r.body files in
      let same : lookup p files' ≡ lookup p files = rw (lookup-insert, out.2) refl in
      let v = verify_file_hash sha256 files' (temp_path dst) expected in
      let installed = install_temp w is_helper dst v files' in
      either_other (not (r.status == 200)) (false, files)
        (if r.broken then (false, files') else installed) refl
        (either_other r.broken (false, files') installed same
          (install-other w is_helper v files' ∙ same))

  pub entry-other :
      (server : String → Option Reply) (sha256 : Bytes → List ℕ) (w : Situation)
      (cfg : RuntimeConfig) (name : String) (o : Option ManifestFile) (files : Files)
      → lookup p (ensure_entry server sha256 w cfg name dst o files).1 ≡ lookup p files
  unfolding ensure_entry
  entry-other server sha256 w cfg name none files = refl
  entry-other server sha256 w cfg name (some entry) files =
      let expected = trim_space entry.sha256_text in
      let got =
        on_reply sha256 w (name == "rshelper.exe") dst expected (server (file_url cfg name entry))
          files in
      let valid = is_valid (verify_file_hash sha256 files dst expected) in
      either_other (is_blank expected) (true, files) (if valid then (true, files) else got) refl
        (either_other valid (true, files) got refl
          (reply-other sha256 w (name == "rshelper.exe") expected (server (file_url cfg name entry))
            files))
