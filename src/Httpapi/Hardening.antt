-- ===== src/Httpapi/Hardening.antt =====
-- internal/httpapi/hardening.go: profiles, the audit log, backups, and the caller's address.
use git_castle.Auth.Types.{User, Profile}
use git_castle.Db.{Db}
use git_castle.Errors.{ok, err, Result}
use git_castle.Prelude.{
  none, some, ◌||◌, ◌==◌, not, if◌then◌else◌, eqb, List, ℕ, String, Option, Bool,
}
use git_castle.Storage.Files.{Volume}
use git_castle.Storage.Paths.{FilePath}
use git_castle.Httpapi.Reply.{
  entries_body, key_body, quietly, backups_body, profile_body, error_body, write_json, write_error,
  try, Route, Reply,
}
use git_castle.Httpapi.Request.{decode, Request}
use git_castle.Prelude.Int.{pos, ℤ}
use git_castle.Prelude.Text.{append, before, trim}
use git_castle.Repos.Types.{Repository}
use git_castle.Storage.Backup.{list_backups, backup, Bundler}
use git_castle.Repos.Service.{get}
use git_castle.Storage.Local.{Object}
use git_castle.Auth.Profiles.{update_profile, get_profile}
use git_castle.Audit.Store.{list_entries, record_entry}
use git_castle.Prelude.Number.{atoi}

-- getProfileRoute, with a profile manager
abbrev pub get_profile_route : String → Route
get_profile_route username =
    try (get_profile username) λ profile. write_json 200 (profile_body profile)

pub record ProfileInput : Type 0 where
  pub display_name : String
  pub bio : String
  pub location : String
  pub website : String

abbrev pub profile_input : ProfileInput → Profile
profile_input i = record {
  username = "";
  display_name = i.display_name;
  bio = i.bio;
  location = i.location;
  website = i.website;
  joined_at = 0;
}

-- updateProfileRoute
unfoldable pub update_profile_route : User → String → Option ProfileInput → Route
update_profile_route user username input =
    if not (user.username == username)
    then write_json 403 (error_body "may only edit your own profile")
    else decode input λ i.
      try (update_profile user.username (profile_input i))
        λ profile. write_json 200 (profile_body profile)

-- strconv.Atoi of the query's limit; a text out of range gives the nearest integer there, which
-- List replaces just as it replaces 0.
abbrev pub limit_given : Option ℤ → ℤ
limit_given none = pos 0
limit_given (some n) = n

-- listAuditRoute
abbrev pub list_audit_route : String → String → String → Route
list_audit_route actor action limit =
    try (list_entries actor action (limit_given (atoi limit)))
      λ entries. write_json 200 (entries_body entries)

-- The database and the volume of the backups
pub record Backed : Type 0 where
  pub db : Db
  pub volume : Volume

abbrev pub on_volume : Volume → Reply × Db → Reply × Backed
on_volume v (reply, s) = (reply, record { db = s; volume = v })

abbrev pub backed_up_reply :
    Bool → String → User → Repository → Db → Result String × Volume → Reply × Backed
backed_up_reply has_audit ip user repository s (err e, v) = on_volume v (write_error e s)
backed_up_reply has_audit ip user repository s (ok key, v) =
    let slug = append repository.owner (append "/" repository.name) in
    on_volume v (
      if has_audit
      then quietly
          (record_entry user.username "repository_backed_up" slug
            (some (append "{\"key\":\"" (append key "\"}"))) ip)
          (write_json 201 (key_body key)) s
      else write_json 201 (key_body key) s)

abbrev pub with_repository :
    Result Repository × Db → Volume → (Repository → Db → Reply × Backed) → Reply × Backed
with_repository (err e, s) v f = on_volume v (write_error e s)
with_repository (ok repository, s) v f = f repository s

-- createBackupRoute, with the backupAdapter of cmd/gitcastle/main.go
abbrev pub create_backup_route :
    FilePath → Bundler → String → Bool → String → Request → Backed → Reply × Backed
create_backup_route root bundler stamp has_audit ip r w =
    with_repository (get r.owner r.name w.db) w.volume λ repository s.
      backed_up_reply has_audit ip r.user repository s
        (backup root bundler stamp repository.owner repository.name w.volume)

abbrev pub backups_reply : Db → Result (List Object) × Volume → Reply × Backed
backups_reply s (err e, v) = on_volume v (write_error e s)
backups_reply s (ok objects, v) = on_volume v (write_json 200 (backups_body objects) s)

-- listBackupsRoute
abbrev pub list_backups_route : FilePath → Request → Backed → Reply × Backed
list_backups_route root r w =
    with_repository (get r.owner r.name w.db) w.volume
      λ repository s. backups_reply s (list_backups root repository.owner repository.name w.volume)

abbrev is_blank_char : ℕ → Bool
is_blank_char c = eqb c b' ' || eqb c b'\t'

-- trimSpaces
unfoldable trim_spaces : String → String
trim_spaces value = trim is_blank_char value

-- remoteIP, of the header X-Forwarded-For and the address of the connection
unfoldable remote_ip : String → String → String
unfolding trim_spaces
remote_ip forwarded remote_addr =
    if forwarded == "" then remote_addr else trim_spaces (before b',' forwarded)
