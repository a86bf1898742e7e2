-- ===== src/Backups.antt =====
-- internal/backups/service.go: the snapshots in the backup directory, their retention and their
-- schedule. The directory is a list of entries; the dumps, the archive and the clock are parameters.
pub mod Retention
pub mod Schedule
pub mod Fresh
mod Tests
use caddytower.Prelude.{
  ℕ, ◌+◌, ◌*◌, ◌-◌, ◌%◌, ltb, leb, Bool, true, false, not, ◌&&◌, ◌||◌, Option, none, some, List, [],
  ◌∷◌, ◌++◌, map, keep, exists, find_first, if◌then◌else◌,
}
use caddytower.Prelude.Int.{ℤ, pos, negsuc}
use caddytower.Prelude.Decimal.{atoi}
use caddytower.Prelude.Sorting.{sort}
use caddytower.Prelude.Effects.{M, Outcome, ok, fail, get, return, throw, ◌>>=◌, ◌>>◌}
use caddytower.Prelude.Texts.{
  Text, codes, text_eq, text_lt, trim_space, has_suffix, contains_char, split,
}
use caddytower.Caddy.{is_blank}

-- A file or directory in the backup directory.
pub record Entry : Type 0 where
  pub name : Text
  pub is_dir : Bool
  pub mod_time : ℕ
  pub size : ℕ

pub record Snapshot : Type 0 where
  pub name : Text
  pub created_at : ℕ
  pub size_bytes : ℕ

abbrev pub Directory : Type 0
Directory = List Entry

pub data BackupError : Type 0 where
  create_backup_dir read_backup_dir create_temp_dir : BackupError
  stat_entry remove_old invalid_name open_backup stat_backup : Text → BackupError
  backup_database dump_engines write_metadata archive_failed : BackupError

-- What the operating system and the databases answer during a call; `true` is an error.
pub record Faults : Type 0 where
  pub mkdir : Bool
  pub read_dir : Bool
  pub mkdir_temp : Bool
  pub info : Text → Bool
  pub remove : Text → Bool
  pub open_file : Text → Bool
  pub vacuum : Bool
  pub write_file : Bool

abbrev pub Backups : Type 0 → Type 0
Backups A = M Directory BackupError A

abbrev pub refuse_if : Bool → BackupError → Backups (Unit {0})
refuse_if fault e = if fault then throw e else return tt

unfoldable pub is_archive : Entry → Bool
unfolding has_suffix
is_archive e = not e.is_dir && has_suffix e.name (codes ".tar.gz")

abbrev pub snapshot_of : Entry → Snapshot
snapshot_of e = record { name = e.name; created_at = e.mod_time; size_bytes = e.size }

abbrev pub newer : Snapshot → Snapshot → Bool
newer a b = ltb b.created_at a.created_at

unfoldable pub read_entries : Faults → List Entry → Backups (List Snapshot)
unfolding is_archive
read_entries f [] s = ok [] s
read_entries f (e ∷ es) s =
    if not (is_archive e)
    then read_entries f es s
    else if f.info e.name
    then fail (stat_entry e.name) s
    else (do rest ← read_entries f es; return (snapshot_of e ∷ rest)) s

unfoldable pub list_snapshots : Faults → Backups (List Snapshot)
unfolding read_entries sort
list_snapshots f = do
  refuse_if f.mkdir create_backup_dir
  entries ← get
  refuse_if f.read_dir read_backup_dir
  snapshots ← read_entries f entries
  return (sort newer snapshots)

abbrev pub day : ℕ
day = 86400000000000

-- A snapshot that was not created after the cutoff, `days` days before `now`.
abbrev pub is_old : ℕ → ℕ → Snapshot → Bool
is_old now days s = leb (s.created_at + days * day) now

-- `os.Remove`: a file that is not there is no error for the caller.
unfoldable pub remove : Faults → Text → Backups (Unit {0})
unfolding keep text_eq
remove f name s =
    if f.remove name
    then fail (remove_old name) s
    else ok tt (keep (λ e. not (text_eq name e.name)) s)

unfoldable pub remove_each : Faults → ℕ → ℕ → List Snapshot → Backups (Unit {0})
unfolding remove
remove_each f now days [] s = ok tt s
remove_each f now days (x ∷ xs) s =
    if is_old now days x
    then (remove f x.name >> remove_each f now days xs) s
    else remove_each f now days xs s

unfoldable pub prune_old : Faults → ℕ → ℕ → Backups (Unit {0})
unfolding list_snapshots remove_each
prune_old f now days = do snapshots ← list_snapshots f; remove_each f now days snapshots

unfoldable pub valid_snapshot_name : Text → Bool
unfolding contains_char has_suffix text_eq trim_space
valid_snapshot_name name =
    if is_blank name || contains_char b'/' name || contains_char b'\\' name
    then false
    else has_suffix name (codes ".tar.gz")

-- The entry of a name, which `OpenSnapshot` and `os.Stat` look up.
unfoldable pub entry_of : Text → Directory → Option Entry
unfolding find_first text_eq
entry_of name s = find_first (λ e. text_eq name e.name) s

abbrev pub stated : BackupError → Option Entry → Backups Snapshot
stated e none = throw e
stated e (some x) = return (snapshot_of x)

unfoldable pub open_snapshot : Faults → Text → Backups Snapshot
unfolding valid_snapshot_name entry_of
open_snapshot f name s =
    if not (valid_snapshot_name name)
    then fail (invalid_name name) s
    else if f.open_file name
    then fail (open_backup name) s
    else if f.info name
    then fail (stat_backup name) s
    else stated (open_backup name) (entry_of name s) s

-- What a run draws from its surroundings: the clock at its start and when it prunes, the layout of the
-- time stamp, the dumps of the engines, and the time and size of the archive with its success.
pub record Run : Type 0 where
  pub started_at : ℕ
  pub pruned_at : ℕ
  pub stamp : ℕ → Text
  pub include_dumps : Bool
  pub dumps : Option (List Text)
  pub archived_at : ℕ
  pub archive_size : List Text → ℕ
  pub archive_fails : Bool

abbrev pub dumped : Option (List Text) → Backups (List Text)
dumped none = throw dump_engines
dumped (some files) = return files

abbrev pub engine_files : Run → Backups (List Text)
engine_files r = if r.include_dumps then dumped r.dumps else return []

abbrev pub archive_of : Run → Text → List Text → Entry
archive_of r name files = record {
  name = name;
  is_dir = false;
  mod_time = r.archived_at;
  size = r.archive_size files;
}

-- The archive is created, or a file of its name is replaced, before an error can come.
unfoldable pub archive_directory : Run → Text → List Text → Backups (Unit {0})
unfolding keep text_eq
archive_directory r name files s =
    let written = archive_of r name files ∷ keep (λ e. not (text_eq name e.name)) s in
    if r.archive_fails then fail archive_failed written else ok tt written

abbrev pub archive_name : Run → Text
archive_name r = codes "backup-" ++ r.stamp r.started_at ++ codes ".tar.gz"

-- The working directory, which `RunNow` removes whatever happens, is no entry here.
unfoldable pub run_now : Faults → Run → ℕ → Backups Snapshot
unfolding sort text_lt archive_directory prune_old entry_of
run_now f r days = do
  refuse_if f.mkdir create_backup_dir
  refuse_if f.mkdir_temp create_temp_dir
  refuse_if f.vacuum backup_database
  files ← engine_files r
  refuse_if f.write_file write_metadata
  archive_directory r (archive_name r) (sort text_lt (codes "state.db" ∷ files))
  prune_old f r.pruned_at days
  entries ← get
  refuse_if (f.info (archive_name r)) (stat_backup (archive_name r))
  stated (stat_backup (archive_name r)) (entry_of (archive_name r) entries)

abbrev two_thirty : ℕ × ℕ
two_thirty = (2, 30)

abbrev up_to : ℕ → Option ℤ → Option ℕ
up_to high (some (pos n)) = if ltb high n then none else some n
up_to high _ = none

abbrev clock_of : Option ℕ → Option ℕ → ℕ × ℕ
clock_of (some hour) (some minute) = (hour, minute)
clock_of _ _ = two_thirty

abbrev pub parts_clock : List Text → ℕ × ℕ
parts_clock (hour ∷ minute ∷ []) = clock_of (up_to 23 (atoi hour)) (up_to 59 (atoi minute))
parts_clock _ = two_thirty

unfoldable pub scheduled_clock_parts : Text → ℕ × ℕ
unfolding atoi split trim_space
scheduled_clock_parts raw = parts_clock (split b':' (trim_space raw))

-- Nanoseconds since the start of 1970 in UTC, where every day has 24 hours.
unfoldable pub next_scheduled_run_at : ℕ → Text → ℕ
unfolding scheduled_clock_parts
next_scheduled_run_at now raw =
    let clock = scheduled_clock_parts raw in
    let next = (now - now % day) + (clock.0 * 60 + clock.1) * 60000000000 in
    if not (ltb now next) then next + day else next
