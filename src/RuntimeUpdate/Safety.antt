-- ===== src/RuntimeUpdate/Safety.antt =====
-- An update leaves the old bytes or verified ones.
use appcenter_agent.Common.{
  ℕ, String, ◌≡◌, refl, sym, ap, ◌∙◌, subst, ◌⊎◌, inl, inr, Bool, true, false, not, ◌&&◌, Option,
  none, some, List, if◌then◌else◌, Bool-cases, ◌==◌, nat_eq, int_eq, string_eq, is_blank,
}
use appcenter_agent.Common.Dict.{
  Dict, lookup, insert, delete, lookup-insert, lookup-delete, lookup-insert_self,
}
use appcenter_agent.Common.Text.{trim_space, join}
use appcenter_agent.Files.{Bytes, Files, verify_file_hash}
use appcenter_agent.Files.{verdict}
use appcenter_agent.RuntimeUpdate.{
  RuntimeConfig, ManifestFile, Reply, Situation, replace_file, temp_path, install_temp, on_reply,
  is_valid, file_url, ensure_entry, ensure_file,
}
use appcenter_agent.RuntimeUpdate.Replacing.{Apart, replaced, restored}

-- The destination is as it was, or it holds bytes with the expected hash.
abbrev pub Safe : (Bytes → List ℕ) → String → String → Files → Files → Type 0
Safe sha256 expected dst files files' =
    (lookup dst files' ≡ lookup dst files)
    ⊎ ((b : Bytes) × (lookup dst files' ≡ some b) × (verdict sha256 expected (some b) ≡ some true))

-- the hash that the manifest asks for
abbrev pub trimmed_hash : Option ManifestFile → String
trimmed_hash none = ""
trimmed_hash (some entry) = trim_space entry.sha256_text

-- The new file can be put in place, or else an old backup can be removed, and the old file put
-- aside and back.
abbrev pub Recoverable : Situation → Type 0
Recoverable w =
    (w.swaps ≡ true)
    ⊎ ((w.clears ≡ true) × (w.swaps ≡ false) × (w.backs_up ≡ true) × (w.restores ≡ true))

module _ (sha256 : Bytes → List ℕ) (w : Situation) (is_helper : Bool) (dst expected : String)
    (d : Apart dst) (ok : Recoverable w) where
  gone_temp : (files : Files) → lookup dst (delete (temp_path dst) files) ≡ lookup dst files
  gone_temp files = rw (lookup-delete, d.2) refl

  replace-Safe :
      (files : Files) (b : Bytes)
      → lookup (temp_path dst) files ≡ some b
      → verdict sha256 expected (some b) ≡ some true
      → Safe sha256 expected dst files
          (delete (temp_path dst) (replace_file w dst (temp_path dst) files).1)
  replace-Safe files b there good = elim ok [
    | inl e ↦ inr (b, gone_temp _ ∙ replaced dst files d w b e there, good)
    | inr e ↦ inl (gone_temp _ ∙ restored dst files d w e.0 e.1 e.2 e.3)
  ]

  install-Safe :
      (files : Files) (b : Bytes) (v : Option Bool)
      → lookup (temp_path dst) files ≡ some b
      → verdict sha256 expected (some b) ≡ v
      → Safe sha256 expected dst files (install_temp w is_helper dst v files).1
  unfolding install_temp
  install-Safe files b none there h = inl (gone_temp files)
  install-Safe files b (some false) there h = inl (gone_temp files)
  install-Safe files b (some true) there h = elim (Bool-cases (is_helper && w.running)) [
    | inl e ↦ rw e (inl (gone_temp files))
    | inr e ↦ rw e (replace-Safe files b there h)
  ]

  since-Safe :
      (files files' files'' : Files)
      → lookup dst files' ≡ lookup dst files
      → Safe sha256 expected dst files' files''
      → Safe sha256 expected dst files files''
  since-Safe files files' files'' same (inl e) = inl (e ∙ same)
  since-Safe files files' files'' same (inr h) = inr h

  either-Safe :
      (b : Bool) (x y : Bool × Files) (files : Files)
      → Safe sha256 expected dst files x.1
      → Safe sha256 expected dst files y.1
      → Safe sha256 expected dst files (if b then x else y).1
  either-Safe true x y files p q = p
  either-Safe false x y files p q = q

  verdict_of :
      (files : Files) (b : Bytes)
      → lookup (temp_path dst) files ≡ some b
      → verdict sha256 expected (some b) ≡ verify_file_hash sha256 files (temp_path dst) expected
  unfolding verify_file_hash
  verdict_of files b e = sym (ap (verdict sha256 expected) e)

  reply-Safe :
      (o : Option Reply) (files : Files)
      → Safe sha256 expected dst files (on_reply sha256 w is_helper dst expected o files).1
  unfolding on_reply
  reply-Safe none files = inl refl
  reply-Safe (some r) files =
      let files' = insert (temp_path dst) r.body files in
      let held = lookup-insert_self (temp_path dst) r.body files in
      let same : lookup dst files' ≡ lookup dst files = rw (lookup-insert, d.2) refl in
      let v = verify_file_hash sha256 files' (temp_path dst) expected in
      either-Safe (not (r.status == 200)) (false, files)
        (if r.broken then (false, files') else install_temp w is_helper dst v files') files
        (inl refl)
        (either-Safe r.broken (false, files') (install_temp w is_helper dst v files') files
          (inl same)
          (since-Safe files files' _ same
            (install-Safe files' r.body v held (verdict_of files' r.body held))))

  entry-Safe :
      (server : String → Option Reply) (cfg : RuntimeConfig) (name : String)
      (o : Option ManifestFile) (files : Files)
      → expected ≡ trimmed_hash o
      → is_helper ≡ name == "rshelper.exe"
      → Safe sha256 expected dst files (ensure_entry server sha256 w cfg name dst o files).1
  unfolding ensure_entry
  entry-Safe server cfg name none files e e' = inl refl
  entry-Safe server cfg name (some entry) files e e' =
      let reply = server (file_url cfg name entry) in
      either-Safe (is_blank (trim_space entry.sha256_text)) (true, files)
        (if is_valid (verify_file_hash sha256 files dst (trim_space entry.sha256_text))
          then (true, files)
          else on_reply sha256 w (name == "rshelper.exe") dst (trim_space entry.sha256_text) reply
              files)
        files (inl refl)
        (either-Safe (is_valid (verify_file_hash sha256 files dst (trim_space entry.sha256_text)))
          (true, files)
          (on_reply sha256 w (name == "rshelper.exe") dst (trim_space entry.sha256_text) reply
            files)
          files (inl refl)
          (subst
            (λ x.
              Safe sha256 expected dst files
                (on_reply sha256 w (name == "rshelper.exe") dst x reply files).1)
            e
            (subst
              (λ b. Safe sha256 expected dst files (on_reply sha256 w b dst expected reply files).1)
              e' (reply-Safe reply files))))

-- Where the new file can be put in place, or else an old backup removed and the old file put
-- aside and back, ensureFile leaves under its destination what was there, or bytes with the hash
-- of the manifest, whatever the server sends; the paths of the destination, the backup and the
-- download differ.
pub ensure_file-Safe :
    (server : String → Option Reply) (sha256 : Bytes → List ℕ) (w : Situation) (cfg : RuntimeConfig)
    (manifest : Dict String ManifestFile) (exe_dir name : String) (files : Files)
    → Apart (join exe_dir name)
    → Recoverable w
    → Safe sha256
        (trimmed_hash (lookup name manifest))
        (join exe_dir name)
        files
        (ensure_file server sha256 w cfg manifest exe_dir name files).1
unfolding ensure_file
ensure_file-Safe server sha256 w cfg manifest exe_dir name files d ok =
    entry-Safe sha256 w (name == "rshelper.exe") (join exe_dir name)
      (trimmed_hash (lookup name manifest)) d ok server cfg name (lookup name manifest) files refl
      refl
