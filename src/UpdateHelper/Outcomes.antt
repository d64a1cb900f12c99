-- ===== src/UpdateHelper/Outcomes.antt =====
-- How a run of the helper ends.
use appcenter_agent.Common.{
  String, ◌≡◌, refl, ap, ◌∙◌, Bool, true, false, ◌||◌, Option, none, some, eq_iff, if◌then◌else◌,
  ◌==◌, nat_eq, int_eq, string_eq, is_blank,
}
use appcenter_agent.Common.Dict.{
  lookup, insert, delete, lookup-insert, lookup-delete, lookup-insert_self,
}
use appcenter_agent.Common.Text.{append}
use appcenter_agent.Files.{Bytes, Files}
use appcenter_agent.Config.{Config, Overrides, loaded, load}
use appcenter_agent.UpdateHelper.{
  Arguments, Machine, World, Exit, fatal, copy_file, moved, replace_file, with_version,
  update_config_version, finish_update, main,
}

abbrev pub beside : String → String
beside dst = append dst ".new"

lookup-moved :
    (src dst p : String) (b : Bytes) (files : Files)
    → dst == beside dst ≡ false
    → beside dst == p ≡ false
    → lookup p (
        delete src (
          moved
            (lookup (beside dst) (delete dst (insert (beside dst) b files)))
            (beside dst)
            dst
            (delete dst (insert (beside dst) b files))))
      ≡ (if src == p then none else if dst == p then some b else lookup p files)
lookup-moved src dst p b files h h' =
    let held : lookup (beside dst) (delete dst (insert (beside dst) b files)) ≡ some b =
      rw (lookup-delete, h, lookup-insert_self (beside dst) b files) refl in
    ap
      (λ o.
        lookup p (delete src (moved o (beside dst) dst (delete dst (insert (beside dst) b files)))))
      held
    ∙ final (src == p) (dst == p) refl refl
  where
    final :
        (x y : Bool)
        → src == p ≡ x
        → dst == p ≡ y
        → lookup p (
            delete src
              (insert dst b (delete (beside dst) (delete dst (insert (beside dst) b files)))))
          ≡ (if x then none else if y then some b else lookup p files)
    final true y e e' = rw (lookup-delete, e) refl
    final false true e e' = rw (lookup-delete, e, lookup-insert, e') refl
    final false false e e' =
        rw
          (
            lookup-delete, e, lookup-insert, e', lookup-delete, h', lookup-delete, e',
            lookup-insert, h',
          )
          refl

-- a replacement that succeeds: what stands under each other path, and under the two
replace_file_lem :
    (src dst p : String) (b : Bytes) (files : Files)
    → lookup src files ≡ some b
    → dst == beside dst ≡ false
    → beside dst == p ≡ false
    → ((replace_file true true src dst files).0 ≡ true)
      × (lookup p (replace_file true true src dst files).1
          ≡ (if src == p then none else if dst == p then some b else lookup p files))
unfolding replace_file copy_file
replace_file_lem src dst p b files there h h' = rw there (refl, lookup-moved src dst p b files h h')

-- Everything works, but the service does not start with the new executable.
abbrev pub cannot_start : Machine
cannot_start = record {
  found = true;
  stops = true;
  backup_opens = true;
  copy_opens = true;
  renames = true;
  rollback_opens = true;
  rollback_renames = true;
  config_writes = true;
  starts = false;
  starts_again = true;
}

abbrev pub backup_of : Arguments → String
backup_of args = append args.target_exe (append ".bak." args.stamp)

-- The paths that the helper writes or removes are different ones.
abbrev pub Apart : Arguments → Type 0
Apart args =
    (args.target_exe == beside args.target_exe ≡ false)
    × (beside args.target_exe == args.target_exe ≡ false)
    × (beside args.target_exe == args.config_path ≡ false)
    × (backup_of args == args.target_exe ≡ false)
    × (backup_of args == args.config_path ≡ false)
    × (args.target_exe == args.config_path ≡ false)
    × (args.config_path == backup_of args ≡ false)
    × (args.meta_path == backup_of args ≡ false)
    × (args.meta_path == args.config_path ≡ false)

-- The old executable is back, but the configuration names the version of the new one.
abbrev pub RolledBack : (Config → Bytes) → Arguments → Bytes → Config → Exit × World → Type 0
RolledBack encode args old c r =
    (r.0 ≡ fatal)
    × (lookup args.target_exe r.1.files ≡ some old)
    × (lookup args.config_path r.1.files ≡ some (encode (with_version args.target_version c)))
    × (r.1.running ≡ true)

finish-RolledBack :
    (encode : Config → Bytes) (decode : Bytes → Option Config) (o : Overrides) (args : Arguments)
    (files : Files) (c : Config) (old : Bytes)
    → Apart args
    → is_blank args.meta_path ≡ false
    → lookup (backup_of args) files ≡ some old
    → load decode o args.config_path files ≡ some c
    → RolledBack encode args old c
        (finish_update encode decode o cannot_start args (backup_of args) files)
unfolding finish_update update_config_version
finish-RolledBack encode decode o args files c old d given kept loaded_c =
    let versioned = insert args.config_path (encode (with_version args.target_version c)) files in
    let cleaned = delete args.meta_path versioned in
    let there : lookup (backup_of args) cleaned ≡ some old =
      rw (lookup-delete, d.7, lookup-insert, d.6) kept in
    let own =
      replace_file_lem (backup_of args) args.target_exe args.target_exe old cleaned there d.0 d.1 in
    let cfg =
      replace_file_lem (backup_of args) args.target_exe args.config_path old cleaned there d.0
        d.2 in
    let same : lookup args.config_path cleaned
        ≡ some (encode (with_version args.target_version c)) =
      rw (lookup-delete, d.8) (lookup-insert_self args.config_path _ files) in
    rw (loaded_c, given)
      (
        refl,
        own.1 ∙ rw (d.3, (eq_iff args.target_exe args.target_exe).1 refl) refl,
        cfg.1 ∙ rw (d.4, d.5) same,
        refl,
      )

-- The staged file is none of the others.
abbrev pub StagedApart : Arguments → Type 0
StagedApart args =
    (backup_of args == args.new_exe ≡ false)
    × (args.new_exe == backup_of args ≡ false)
    × (args.target_exe == backup_of args ≡ false)
    × (beside args.target_exe == backup_of args ≡ false)
    × (args.new_exe == args.config_path ≡ false)

-- If everything works but the service does not start with the new executable, the helper ends
-- with an error, the old executable is back and the service is started again, but the
-- configuration names the version of the update; the arguments are given, both executables and a
-- configuration that loads are there, and the paths differ.
pub failed_start-RolledBack :
    (encode : Config → Bytes) (decode : Bytes → Option Config) (o : Overrides) (args : Arguments)
    (w : World) (c : Config) (old fresh : Bytes)
    → Apart args
    → StagedApart args
    → is_blank args.meta_path ≡ false
    → is_blank args.target_exe
        || is_blank args.new_exe
        || is_blank args.config_path
        || is_blank args.target_version
      ≡ false
    → lookup args.target_exe w.files ≡ some old
    → lookup args.new_exe w.files ≡ some fresh
    → load decode o args.config_path w.files ≡ some c
    → RolledBack encode args old c (main encode decode o cannot_start args w)
unfolding main copy_file load
failed_start-RolledBack encode decode o args w c old fresh d d' given all_given there staged
      loaded_c =
    let saved = insert (backup_of args) old w.files in
    let staged' : lookup args.new_exe saved ≡ some fresh = rw (lookup-insert, d'.0) staged in
    let ok =
      replace_file_lem args.new_exe args.target_exe (backup_of args) fresh saved staged' d.0 d'.3 in
    let cfg =
      replace_file_lem args.new_exe args.target_exe args.config_path fresh saved staged' d.0 d.2 in
    let kept : lookup (backup_of args) (replace_file true true args.new_exe args.target_exe saved).1
        ≡ some old =
      ok.1 ∙ rw (d'.1, d'.2) (lookup-insert_self (backup_of args) old w.files) in
    let config_kept : lookup args.config_path
          (replace_file true true args.new_exe args.target_exe saved).1
        ≡ lookup args.config_path w.files =
      cfg.1 ∙ rw (d'.4, d.5, lookup-insert, d.4) refl in
    rw (all_given, there, ok.0)
      (finish-RolledBack encode decode o args
        (replace_file true true args.new_exe args.target_exe saved).1 c old d given kept
        (ap (loaded decode o) config_kept ∙ loaded_c))
