-- ===== src/Backups/Tests.antt =====
-- A directory with an old archive, a young one and other entries (internal/backups/service.go).
use caddytower.Prelude.{
  ℕ, ◌+◌, ◌*◌, ◌%◌, ◌≤◌, ◌<◌, ◌≡◌, refl, true, false, none, some, List, [], ◌∷◌, keep,
  if◌then◌else◌, arith,
}
use caddytower.Prelude.Int.{pos}
use caddytower.Prelude.Decimal.{atoi}
use caddytower.Prelude.Effects.{ok, fail, Ends}
use caddytower.Prelude.Results.{value}
use caddytower.Prelude.Texts.{Text, codes, text_eq, split, trim_space, lower}
use caddytower.Config.{Config, Net, Lookup, configuration, load_from_lookup}
use caddytower.Backups.{
  Entry, Directory, Faults, Run, day, prune_old, run_now, snapshot_of, archive_of, archive_name,
  open_snapshot, invalid_name, scheduled_clock_parts, next_scheduled_run_at,
}
use caddytower.Backups.Retention.{Distinct, IsQuiet, is_kept, prune_old-keep}
use caddytower.Backups.Fresh.{IsSmooth, after_run, run_now-keep}
use caddytower.Backups.Schedule.{InDay, next_scheduled_run_at-InDay, load_from_lookup-scheduled}

abbrev file : Text → ℕ → Entry
file name at = record { name = name; is_dir = false; mod_time = at; size = 10 }

abbrev old_file : Entry
old_file = file (codes "backup-a.tar.gz") 1000

abbrev young_file : Entry
young_file = file (codes "backup-b.tar.gz") (30 * day)

abbrev note : Entry
note = file (codes "notes.txt") 1000

abbrev entries : Directory
entries = old_file ∷ note ∷ young_file ∷ []

abbrev quiet : Faults
quiet = record {
  mkdir = false;
  read_dir = false;
  mkdir_temp = false;
  info = λ _. false;
  remove = λ _. false;
  open_file = λ _. false;
  vacuum = false;
  write_file = false;
}

pruned : prune_old quiet (40 * day) 14 entries ≡ ok tt (note ∷ young_file ∷ [])
unfolding prune_old
pruned = refl

entries-Distinct : Distinct entries
unfolding text_eq
entries-Distinct = ((refl, (refl, tt)), ((refl, tt), (tt, tt)))

prune_old-keep_example :
    Ends
      (λ _ t. t ≡ keep (is_kept (40 * day) 14) entries)
      (λ _ _. ¬ IsQuiet quiet)
      (prune_old quiet (40 * day) 14 entries)
prune_old-keep_example = prune_old-keep (40 * day) 14 quiet entries entries-Distinct

abbrev run : Run
run = record {
  started_at = 40 * day;
  pruned_at = 40 * day + 5;
  stamp = λ _. codes "c";
  include_dumps = true;
  dumps = some (codes "shop.sql" ∷ []);
  archived_at = 40 * day + 3;
  archive_size = λ _. 77;
  archive_fails = false;
}

ran :
    run_now quiet run 14 entries
    ≡ ok
        (record { name = codes "backup-c.tar.gz"; created_at = 40 * day + 3; size_bytes = 77 })
        (after_run quiet run 14 entries (codes "shop.sql" ∷ codes "state.db" ∷ []))
unfolding run_now
ran = refl

run_now-keep_example :
    Ends
      (λ snapshot t.
        (files : List Text) × (t ≡ after_run quiet run 14 entries files)
        × (snapshot ≡ snapshot_of (archive_of run (archive_name run) files)))
      (λ _ _. ¬ IsSmooth quiet run 14 entries)
      (run_now quiet run 14 entries)
run_now-keep_example = run_now-keep quiet run 14 entries entries-Distinct (omega arith)

traversal :
    open_snapshot quiet (codes "../state.db") entries
    ≡ fail (invalid_name (codes "../state.db")) entries
unfolding open_snapshot
traversal = refl

next_scheduled_run_at-InDay_example :
    InDay (scheduled_clock_parts (codes "3:15"))
    × (100 < next_scheduled_run_at 100 (codes "3:15"))
    × (next_scheduled_run_at 100 (codes "3:15") ≤ 100 + day)
    × (next_scheduled_run_at 100 (codes "3:15") % day
        ≡ ((scheduled_clock_parts (codes "3:15")).0 * 60 + (scheduled_clock_parts (codes "3:15")).1)
          * 60000000000)
next_scheduled_run_at-InDay_example = next_scheduled_run_at-InDay 100 (codes "3:15")

quarter_past : next_scheduled_run_at 100 (codes "3:15") ≡ 195 * 60000000000
unfolding next_scheduled_run_at
quarter_past = refl

abbrev net : Net
net = record {
  parse_url = λ raw. some (record { scheme = codes "https"; host = raw; hostname = raw });
  is_loopback = λ _. true;
}

abbrev environment : Lookup
environment asked =
    if text_eq asked (codes "CADDYTOWER_BACKUPS_SCHEDULE_UTC") then some (codes " 23:05 ") else none

abbrev loaded : Config
loaded =
    configuration environment (pos 0) false true (pos 14) true (pos 15) (pos 15) (pos 15) (pos 360)
      (pos 587)

accepted : load_from_lookup net environment ≡ value loaded
unfolding load_from_lookup text_eq lower
accepted = refl

load_from_lookup-scheduled_example :
    (hour : Text) × (minute : Text) × (split b':' (trim_space loaded.backups_schedule_utc)
      ≡ hour ∷ minute ∷ [])
    × (atoi hour ≡ some (pos (scheduled_clock_parts loaded.backups_schedule_utc).0))
    × (atoi minute ≡ some (pos (scheduled_clock_parts loaded.backups_schedule_utc).1))
load_from_lookup-scheduled_example = load_from_lookup-scheduled net environment loaded accepted
