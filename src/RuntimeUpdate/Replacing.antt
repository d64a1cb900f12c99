-- ===== src/RuntimeUpdate/Replacing.antt =====
-- What stands under the destination after an update.
use appcenter_agent.Common.{
  String, ◌≡◌, refl, sym, ap, ◌∙◌, Bool, true, false, not, Option, none, some, if◌then◌else◌,
  is_some, ◌==◌, nat_eq, int_eq, string_eq,
}
use appcenter_agent.Common.Dict.{
  lookup, delete, lookup-insert, lookup-delete, lookup-insert_self, lookup-delete_self,
}
use appcenter_agent.Files.{Bytes, Files}
use appcenter_agent.RuntimeUpdate.{
  Situation, moved, rename, backup_path, set_aside, replace_file, temp_path,
}

-- The three paths of an update are different ones.
abbrev pub Apart : String → Type 0
Apart dst =
    (backup_path dst == dst ≡ false)
    × (dst == backup_path dst ≡ false)
    × (temp_path dst == dst ≡ false)
    × (backup_path dst == temp_path dst ≡ false)
    × (dst == temp_path dst ≡ false)

module _ (dst : String) (files : Files) (d : Apart dst) where
  clean_other :
      (p : String)
      → backup_path dst == p ≡ false
      → lookup p (delete (backup_path dst) files) ≡ lookup p files
  clean_other p h = rw (lookup-delete, h) refl

  -- the files without the old backup, if it can be removed
  abbrev cleaned : Bool → Files
  cleaned clears = if clears then delete (backup_path dst) files else files

  cleaned_other :
      (clears : Bool) (p : String)
      → backup_path dst == p ≡ false
      → lookup p (cleaned clears) ≡ lookup p files
  cleaned_other true p h = clean_other p h
  cleaned_other false p h = refl

  -- the paths that are neither the destination nor its backup
  pub aside_other :
      (w : Situation) (p : String)
      → backup_path dst == p ≡ false
      → dst == p ≡ false
      → lookup p (set_aside w dst files) ≡ lookup p files
  unfolding set_aside
  aside_other w p h h' = cases w.backs_up w.removes (lookup dst (cleaned w.clears)) refl
    where
      clean : Files
      clean = cleaned w.clears

      same : lookup p clean ≡ lookup p files
      same = cleaned_other w.clears p h

      cases :
          (a r : Bool) (o : Option Bytes)
          → lookup dst clean ≡ o
          → lookup p (
              if not (is_some o)
              then clean
              else if (if a then moved o dst (backup_path dst) clean else (false, clean)).0
              then (if a then moved o dst (backup_path dst) clean else (false, clean)).1
              else if r
              then delete dst clean
              else clean)
            ≡ lookup p files
      cases a r none e = same
      cases true r (some c) e = rw (lookup-insert, h, lookup-delete, h') same
      cases false true (some c) e = rw (lookup-delete, h') same
      cases false false (some c) e = same

  pub replaced :
      (w : Situation) (b : Bytes)
      → w.swaps ≡ true
      → lookup (temp_path dst) files ≡ some b
      → lookup dst (replace_file w dst (temp_path dst) files).1 ≡ some b
  unfolding replace_file
  replaced w b e there =
      let held = aside_other w (temp_path dst) d.3 d.4 ∙ there in
      swapped w.swaps (lookup (temp_path dst) (set_aside w dst files)) e held
    where
      aside : Files
      aside = set_aside w dst files

      swapped :
          (s : Bool) (o : Option Bytes)
          → s ≡ true
          → o ≡ some b
          → lookup dst
              (if (if s then moved o (temp_path dst) dst aside else (false, aside)).0
                then (if s then moved o (temp_path dst) dst aside else (false, aside))
                else (false, (rename w.restores (backup_path dst) dst aside).1)).1
            ≡ some b
      swapped s o e' e'' = rw (e', e'') (lookup-insert_self dst b (delete (temp_path dst) aside))

  pub restored :
      (w : Situation)
      → w.clears ≡ true
      → w.swaps ≡ false
      → w.backs_up ≡ true
      → w.restores ≡ true
      → lookup dst (replace_file w dst (temp_path dst) files).1 ≡ lookup dst files
  unfolding replace_file set_aside
  restored w ok e e' e'' =
      rw (ok, e, e', e'') (back (lookup dst (delete (backup_path dst) files)) refl)
    where
      clean : Files
      clean = delete (backup_path dst) files

      aside_of : Option Bytes → Files
      aside_of o =
          if not (is_some o)
          then clean
          else if (moved o dst (backup_path dst) clean).0
          then (moved o dst (backup_path dst) clean).1
          else if w.removes
          then delete dst clean
          else clean

      back :
          (o : Option Bytes)
          → lookup dst clean ≡ o
          → lookup dst
              (moved (lookup (backup_path dst) (aside_of o)) (backup_path dst) dst (aside_of o)).1
            ≡ lookup dst files
      back none e =
          ap (λ o. lookup dst (moved o (backup_path dst) dst clean).1)
            (lookup-delete_self (backup_path dst) files)
          ∙ clean_other dst d.0
      back (some c) e =
          ap (λ o. lookup dst (moved o (backup_path dst) dst (aside_of (some c))).1)
            (lookup-insert_self (backup_path dst) c (delete dst clean))
          ∙ lookup-insert_self dst c (delete (backup_path dst) (aside_of (some c)))
          ∙ sym e
          ∙ clean_other dst d.0
