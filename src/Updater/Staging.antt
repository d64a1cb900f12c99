-- ===== src/Updater/Staging.antt =====
-- What StageIfNeeded stages.
use appcenter_agent.Common.{
  ℕ, ◌≡◌, refl, ◌≢◌, ◌⊎◌, inl, inr, Bool, true, false, not, ◌&&◌, ◌||◌, Option, none, some, List,
  ◌∷◌, arith, if◌then◌else◌, Bool-cases, nat_eq, int_eq, string_eq, is_blank, length,
}
use appcenter_agent.Common.Dict.{lookup}
use appcenter_agent.Common.Text.{resolve_url}
use appcenter_agent.Json.{JsonObject, get_text}
use appcenter_agent.Files.{Bytes, Files, verify_file_hash}
use appcenter_agent.Config.{Config}
use appcenter_agent.Downloader.Resume.{refused_range}
use appcenter_agent.Downloader.{Response, Server, DownloadResult}
use appcenter_agent.Updater.Version.{is_newer_version}
use appcenter_agent.Updater.{
  StagedUpdate, Pending, unreadable, WriteResult, not_opened, cut_short, not_closed, wrote,
  write_pending, staged, Disk, Storage, StageResult, skipped, failed, done, latest_version,
  is_force, staged_path, staged_update, conclude, after_download, stage_if_needed,
}

-- What is pending after a failed run: what was, or what such a write of the metadata leaves.
abbrev pub LeftBy : WriteResult → StagedUpdate → Pending → Pending → Type 0
LeftBy not_opened meta before after = after ≡ before
LeftBy cut_short meta before after = (after ≡ before) ⊎ (after ≡ unreadable)
LeftBy not_closed meta before after = (after ≡ before) ⊎ (after ≡ staged meta)
LeftBy wrote meta before after = after ≡ before

-- What a run of StageIfNeeded promises of its result.
abbrev pub Staged :
    (Bytes → List ℕ) → WriteResult → ℕ → Config → JsonObject → Disk → StageResult → Disk → Type 0
Staged sha256 wr now cfg hb disk done disk' =
    (disk'.pending ≡ staged (staged_update now cfg hb))
    × (verify_file_hash sha256 disk'.files (staged_path cfg hb) (get_text hb "agent_hash")
        ≡ some true)
    × ((is_force hb ≡ true) ⊎ (is_newer_version (latest_version hb) cfg.agent.version ≡ true))
    × (is_blank (latest_version hb) ≡ false)
    × (is_blank (get_text hb "agent_hash") ≡ false)
Staged sha256 wr now cfg hb disk skipped disk' = disk' ≡ disk
Staged sha256 wr now cfg hb disk failed disk' =
    LeftBy wr (staged_update now cfg hb) disk.pending disk'.pending

pub either : (a b : Bool) → not a && not b ≡ false → (a ≡ true) ⊎ (b ≡ true)
either true b e = inl refl
either false true e = inr refl
either false false e = ground arith

none_of : (a b c : Bool) → a || b || c ≡ false → (a ≡ false) × (b ≡ false) × (c ≡ false)
none_of a b c e = ground arith

unchanged :
    (wr : WriteResult) (meta : StagedUpdate) (before after : Pending)
    → after ≡ before
    → LeftBy wr meta before after
unchanged not_opened meta before after e = e
unchanged cut_short meta before after e = inl e
unchanged not_closed meta before after e = inl e
unchanged wrote meta before after e = e

-- from the verdict on the hash on
conclude-Staged :
    (sha256 : Bytes → List ℕ) (io : Storage) (now : ℕ) (cfg : Config) (hb : JsonObject)
    (disk disk₁ : Disk) (v : Option Bool)
    → verify_file_hash sha256 disk₁.files (staged_path cfg hb) (get_text hb "agent_hash") ≡ v
    → disk₁.pending ≡ disk.pending
    → (is_force hb ≡ true) ⊎ (is_newer_version (latest_version hb) cfg.agent.version ≡ true)
    → is_blank (latest_version hb) ≡ false
    → is_blank (get_text hb "agent_hash") ≡ false
    → Staged sha256 io.writes now cfg hb disk
        (conclude io now cfg hb v disk₁).0
        (conclude io now cfg hb v disk₁).1
conclude-Staged sha256 io now cfg hb disk disk₁ none e kept new b b' =
    unchanged io.writes (staged_update now cfg hb) disk.pending disk₁.pending kept
conclude-Staged sha256 io now cfg hb disk disk₁ (some false) e kept new b b' =
    unchanged io.writes (staged_update now cfg hb) disk.pending disk₁.pending kept
conclude-Staged sha256 io now cfg hb disk disk₁ (some true) e kept new b b' = by_write io.writes
  where
    by_write :
        (wr : WriteResult)
        → Staged sha256 wr now cfg hb disk
            (write_pending wr (staged_update now cfg hb) disk₁).0
            (write_pending wr (staged_update now cfg hb) disk₁).1
    by_write not_opened = kept
    by_write cut_short = inr refl
    by_write not_closed = inr refl
    by_write wrote = (refl, e, new, b, b')

download-Staged :
    (sha256 : Bytes → List ℕ) (io : Storage) (now : ℕ) (cfg : Config) (hb : JsonObject)
    (disk : Disk) (r : Option DownloadResult × Files)
    → (is_force hb ≡ true) ⊎ (is_newer_version (latest_version hb) cfg.agent.version ≡ true)
    → is_blank (latest_version hb) ≡ false
    → is_blank (get_text hb "agent_hash") ≡ false
    → Staged sha256 io.writes now cfg hb disk
        (after_download sha256 io now cfg hb r disk).0
        (after_download sha256 io now cfg hb r disk).1
download-Staged sha256 io now cfg hb disk (none, files) new b b' =
    unchanged io.writes (staged_update now cfg hb) disk.pending disk.pending refl
download-Staged sha256 io now cfg hb disk (some r, files) new b b' =
    conclude-Staged sha256 io now cfg hb disk (record disk { files = files }) _ refl refl new b b'

-- What StageIfNeeded stages is a file with the announced hash, for a version that is newer than
-- the own one or forced, under metadata that tells this update. If it skips, the disk stays as
-- it was. If it fails, the pending metadata stays, but that a write of the metadata that breaks
-- off may leave metadata that does not decode, and one whose file is not closed may leave the
-- new metadata.
pub stage_lem :
    (server : Server) (sha256 : Bytes → List ℕ) (io : Storage) (now : ℕ) (cfg : Config)
    (hb : JsonObject) (disk : Disk)
    → Staged sha256 io.writes now cfg hb disk
        (stage_if_needed server sha256 io now cfg hb disk).0
        (stage_if_needed server sha256 io now cfg hb disk).1
unfolding stage_if_needed
stage_lem server sha256 io now cfg hb disk =
    elim (Bool-cases (
      is_blank (latest_version hb)
      || is_blank (get_text hb "agent_download_url")
      || is_blank (get_text hb "agent_hash"))) [
        | inl e ↦ rw e refl
        | inr e ↦
            elim (Bool-cases
              (not (is_force hb) && not (is_newer_version (latest_version hb) cfg.agent.version))) [
                | inl e' ↦ rw (e, e') refl
                | inr e' ↦
                    let given =
                      none_of (is_blank (latest_version hb))
                        (is_blank (get_text hb "agent_download_url"))
                        (is_blank (get_text hb "agent_hash")) e in
                    elim (Bool-cases io.makes_folder) [
                      | inl w ↦
                          simp (e, e', w)
                            (download-Staged sha256 io now cfg hb disk _ (either _ _ e') given.0
                              given.2)
                      | inr w ↦
                          simp (e, e', w)
                            (unchanged io.writes (staged_update now cfg hb) disk.pending
                              disk.pending refl)
                    ]
              ]
      ]

abbrev three_guards : Bool → Bool → Bool → Disk → StageResult × Disk
three_guards a b c disk =
    if a
    then (skipped, disk)
    else if b
    then (skipped, disk)
    else if c
    then (failed, disk)
    else (failed, disk)

nothing_staged :
    (a b c : Bool) (disk : Disk)
    → ((three_guards a b c disk).0 ≢ done) × ((three_guards a b c disk).1 ≡ disk)
nothing_staged true b c disk = (λ e. ground arith, refl)
nothing_staged false true c disk = (λ e. ground arith, refl)
nothing_staged false false true disk = (λ e. ground arith, refl)
nothing_staged false false false disk = (λ e. ground arith, refl)

-- Once the file that would be staged is complete, a server that answers a Range at its end with
-- 416 leaves StageIfNeeded without success and the disk as it is.
pub complete_never_staged :
    (server : Server) (sha256 : Bytes → List ℕ) (io : Storage) (now : ℕ) (cfg : Config)
    (hb : JsonObject) (disk : Disk) (x : ℕ) (xs : Bytes) (resp : Response)
    → lookup (staged_path cfg hb) disk.files ≡ some (x ∷ xs)
    → server
        (resolve_url cfg.server.url (get_text hb "agent_download_url"))
        (some (length (x ∷ xs)))
      ≡ some resp
    → resp.status ≡ 416
    → ((stage_if_needed server sha256 io now cfg hb disk).0 ≢ done)
      × ((stage_if_needed server sha256 io now cfg hb disk).1 ≡ disk)
unfolding stage_if_needed
complete_never_staged server sha256 io now cfg hb disk x xs resp there e e' =
    rw
      (refused_range server cfg.download.bandwidth_limit_kbps
        (resolve_url cfg.server.url (get_text hb "agent_download_url")) (staged_path cfg hb)
        disk.files x xs resp there e e')
      (nothing_staged
        (is_blank (latest_version hb)
          || is_blank (get_text hb "agent_download_url")
          || is_blank (get_text hb "agent_hash"))
        (not (is_force hb) && not (is_newer_version (latest_version hb) cfg.agent.version))
        (not io.makes_folder) disk)
