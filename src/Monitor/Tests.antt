-- ===== src/Monitor/Tests.antt =====
-- A machine short of memory that is checked for ten hours (internal/monitor/service.go).
use caddytower.Prelude.{
  ℕ, ◌+◌, ◌*◌, ◌≤◌, ◌≡◌, refl, true, false, some, List, All, [], ◌∷◌, ◌++◌, exists, arith, length,
}
use caddytower.Prelude.Int.{pos, negsuc}
use caddytower.Prelude.Results.{value}
use caddytower.Prelude.Texts.{Text, codes, join}
use caddytower.Monitor.{
  Resource, Config, Status, Machine, Layout, Tick, cooldown, collect_status, parse_meminfo,
  resource_from_used_total, new, check_and_notify, send,
}
use caddytower.Monitor.Percent.{Readings, collect_status-Readings, used_percent_rounds}
use caddytower.Monitor.Cooldown.{Spaced, Clocked, run, mails-Spaced, is_recent, warnings_are_mailed}

abbrev config : Config
config = record {
  data_dir = codes "/data";
  vps_ram_free_warn_percent = 15;
  vps_disk_free_warn_percent = 15;
  vps_warning_cooldown_minutes = 360;
  smtp_host = codes "mail";
  smtp_from = codes "a@b";
  smtp_to = codes "c@d";
}

abbrev meminfo : Text
meminfo =
    codes "MemTotal:  1000 kB"
    ++ 10 ∷ codes "MemFree:  20 kB"
    ++ 10 ∷ codes "MemAvailable: 104 kB"
    ++ 10 ∷ []

abbrev machine : Machine
machine = record {
  meminfo = some meminfo;
  mkdir_all = λ _. true;
  statfs = λ _. some (record { bsize = 4096; blocks = 1000; bavail = 500 });
}

abbrev layout : Layout
layout = record { rfc3339 = λ _. codes "now"; one_decimal = λ a b. codes "1.0" }

abbrev hour : ℕ
hour = 3600000000000

abbrev tick : ℕ → Tick
tick now = record {
  machine = machine;
  snapshot_at = now;
  check_at = now;
  recorded_at = now + 5;
  cancelled = false;
  smtp_accepts = true;
}

abbrev ticks : List Tick
ticks = tick hour ∷ tick (2 * hour) ∷ tick (8 * hour) ∷ []

abbrev memory : Resource
memory = record {
  used_bytes = 917504;
  total_bytes = 1024000;
  used_percent = pos 90;
  free_percent = pos 10;
}

abbrev status_at : ℕ → Status
status_at now = record {
  collected_at = now;
  memory = memory;
  disk = record {
    used_bytes = 2048000;
    total_bytes = 4096000;
    used_percent = pos 50;
    free_percent = pos 50;
  };
  disk_path = codes "/data";
  warnings = codes "RAM available is below 15%" ∷ [];
  email_configured = true;
  email_to = codes "c@d";
  ram_threshold = 15;
  disk_threshold = 15;
}

memory_parsed : parse_meminfo meminfo ≡ value memory
unfolding parse_meminfo
memory_parsed = refl

collected : (now : ℕ) → collect_status config machine now ≡ value (status_at now)
unfolding collect_status
collected now = refl

mailed_twice : length (run layout (new config) ticks).delivered ≡ 2
unfolding run new
mailed_twice = refl

ticks-Clocked : All Clocked ticks
ticks-Clocked =
    ((omega arith, omega arith), ((omega arith, omega arith), ((omega arith, omega arith), tt)))

collect_status-Readings_example : Readings (status_at 7)
collect_status-Readings_example =
    collect_status-Readings config machine 7 (status_at 7) (collected 7)

used_percent_rounds_example :
    (p : ℕ) × ((resource_from_used_total 917504 1024000).used_percent ≡ pos p)
    × (200 * 917504 ≤ 2 * (p * 1024000) + 1024000)
    × (2 * (p * 1024000) ≤ 200 * 917504 + 1024000)
used_percent_rounds_example =
    used_percent_rounds 917504 1024000 (omega arith) (omega arith) (omega arith)

-- From 153722868 minutes on the cooldown does not fit a duration.
overflows :
    cooldown (record config { vps_warning_cooldown_minutes = 153722868 })
    ≡ negsuc 9223371993709551615
unfolding cooldown
overflows = refl

mails-Spaced_example : Spaced (360 * 60000000000) (run layout (new config) ticks).delivered
mails-Spaced_example = mails-Spaced layout config ticks (omega arith) ticks-Clocked

warnings_are_mailed_example :
    exists
      (is_recent (codes "RAM available is below 15%") (9 * hour) (360 * 60000000000))
      (check_and_notify layout (run layout (new config) ticks) (tick (9 * hour))).delivered
    ≡ true
unfolding join send cooldown
warnings_are_mailed_example =
    warnings_are_mailed layout (360 * 60000000000) config ticks (tick (9 * hour))
      (status_at (9 * hour)) ticks-Clocked (omega arith, omega arith) (collected (9 * hour)) refl
      refl refl refl (omega arith)
