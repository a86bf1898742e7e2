-- ===== src/Monitor.antt =====
-- internal/monitor/service.go: the readings of memory and disk, and the warnings sent by mail. The
-- files of the machine, `statfs`, the SMTP server and the layout of dates and of decimal fractions are
-- parameters.
pub mod Percent
pub mod Cooldown
mod Tests
use caddytower.Prelude.{
  ℕ, zero, suc, ◌+◌, ◌*◌, ◌-◌, ◌/◌, ◌%◌, ltb, leb, ◌==◌, Bool, true, false, not, ◌&&◌, ◌||◌, Option,
  none, some, List, [], ◌∷◌, ◌++◌, map, length, is_empty, exists, if◌then◌else◌,
}
use caddytower.Prelude.Int.{ℤ, pos, negsuc, ltb_ℤ}
use caddytower.Prelude.Results.{Result, value, error, return, ◌>>=◌}
use caddytower.Prelude.Decimal.{two_to_64, int_of, itoa, format_int, parse_uint}
use caddytower.Prelude.Texts.{
  Text, codes, text_eq, join, split, trim_space, trim_suffix, fields, scan_lines,
}

pub record Resource : Type 0 where
  pub used_bytes : ℕ
  pub total_bytes : ℕ
  pub used_percent : ℤ
  pub free_percent : ℤ

-- The fields of the configuration that the monitor reads; `Load` refuses negative numbers.
pub record Config : Type 0 where
  pub data_dir : Text
  pub vps_ram_free_warn_percent : ℕ
  pub vps_disk_free_warn_percent : ℕ
  pub vps_warning_cooldown_minutes : ℕ
  pub smtp_host : Text
  pub smtp_from : Text
  pub smtp_to : Text

pub record Status : Type 0 where
  pub collected_at : ℕ
  pub memory : Resource
  pub disk : Resource
  pub disk_path : Text
  pub warnings : List Text
  pub email_configured : Bool
  pub email_to : Text
  pub ram_threshold : ℕ
  pub disk_threshold : ℕ

pub data MonitorError : Type 0 where
  read_meminfo scan_meminfo unusable_meminfo : MonitorError
  ensure_disk_path stat_filesystem invalid_capacity : MonitorError

unfoldable pub warning_email_configured : Config → Bool
warning_email_configured c =
    not (is_empty c.smtp_host) && not (is_empty c.smtp_from) && not (is_empty c.smtp_to)

-- The percentages of a reading: 64-bit sums and products that wrap, read as `int`.
unfoldable pub resource_from_used_total : ℕ → ℕ → Resource
unfolding int_of
resource_from_used_total used total =
    let percent = ((used * 100 + total / 2) % two_to_64) / total in
    if ltb 0 total
    then record {
      used_bytes = used;
      total_bytes = total;
      used_percent = int_of percent;
      free_percent = int_of ((two_to_64 + 100 - percent) % two_to_64);
    }
    else record {
      used_bytes = used;
      total_bytes = total;
      used_percent = pos 0;
      free_percent = pos 0;
    }

-- A Go map from text to `uint64`: a key that is missing reads as 0.
abbrev put_value : (Text → ℕ) → Text → ℕ → Text → ℕ
put_value values key n k = if text_eq key k then n else values k

abbrev put_parsed : (Text → ℕ) → Text → Option ℕ → Text → ℕ
put_parsed values key none = values
put_parsed values key (some n) = put_value values key ((n * 1024) % two_to_64)

-- One line: a key, a colon, and a number of kilobytes.
unfoldable pub read_fields : (Text → ℕ) → List Text → Text → ℕ
unfolding parse_uint trim_suffix text_eq
read_fields values (key ∷ number ∷ more) =
    put_parsed values (trim_suffix key (codes ":")) (parse_uint number)
read_fields values _ = values

unfoldable pub read_values : (Text → ℕ) → List Text → Text → ℕ
unfolding read_fields fields
read_values values [] = values
read_values values (line ∷ lines) = read_values (read_fields values (fields line)) lines

-- A scanner stops with an error at a line that does not fit its buffer.
abbrev too_long : Text → Bool
too_long line = leb 65536 (length line)

unfoldable pub available_memory : (Text → ℕ) → ℕ
available_memory values =
    if values (codes "MemAvailable") == 0
    then ((values (codes "MemFree") + values (codes "Buffers")) % two_to_64
        + values (codes "Cached"))
      % two_to_64
    else values (codes "MemAvailable")

abbrev pub usable : MonitorError → ℕ → ℕ → Result MonitorError Resource
usable e total available =
    if total == 0 || ltb total available
    then error e
    else value (resource_from_used_total (total - available) total)

unfoldable pub parse_meminfo : Text → Result MonitorError Resource
unfolding read_values available_memory resource_from_used_total exists split scan_lines
parse_meminfo content =
    let values = read_values (λ _. 0) (scan_lines content) in
    if exists too_long (split 10 content)
    then error scan_meminfo
    else usable unusable_meminfo (values (codes "MemTotal")) (available_memory values)

pub record Statfs : Type 0 where
  pub bsize : ℕ
  pub blocks : ℕ
  pub bavail : ℕ

-- What the operating system answers; `none` and `false` are errors.
pub record Machine : Type 0 where
  pub meminfo : Option Text
  pub mkdir_all : Text → Bool
  pub statfs : Text → Option Statfs

abbrev collect_memory : Machine → Result MonitorError Resource
collect_memory m = elim m.meminfo [
  | none ↦ error read_meminfo
  | some content ↦ parse_meminfo content
]

abbrev disk_of : Option Statfs → Result MonitorError Resource
disk_of none = error stat_filesystem
disk_of (some s) =
    usable invalid_capacity ((s.blocks * s.bsize) % two_to_64) ((s.bavail * s.bsize) % two_to_64)

unfoldable pub collect_disk : Machine → Text → Result MonitorError Resource
unfolding trim_space resource_from_used_total
collect_disk m path =
    let dir = if is_empty (trim_space path) then codes "." else path in
    if m.mkdir_all dir then disk_of (m.statfs dir) else error ensure_disk_path

abbrev pub low : ℤ → ℕ → Text → List Text
low percent threshold what =
    if ltb_ℤ percent (pos threshold) then (what ++ itoa threshold ++ codes "%") ∷ [] else []

unfoldable pub status_of : Config → ℕ → Resource → Resource → Status
unfolding itoa warning_email_configured
status_of c now memory disk = record {
  collected_at = now;
  memory = memory;
  disk = disk;
  disk_path = c.data_dir;
  warnings =
      low memory.free_percent c.vps_ram_free_warn_percent (codes "RAM available is below ")
      ++ low disk.free_percent c.vps_disk_free_warn_percent (codes "disk free space is below ");
  email_configured = warning_email_configured c;
  email_to = c.smtp_to;
  ram_threshold = c.vps_ram_free_warn_percent;
  disk_threshold = c.vps_disk_free_warn_percent;
}

unfoldable pub collect_status : Config → Machine → ℕ → Result MonitorError Status
unfolding collect_disk parse_meminfo status_of
collect_status c m now = do
  memory ← collect_memory m
  disk ← collect_disk m c.data_dir
  return (status_of c now memory disk)

-- `time.Format` with the layout RFC 3339, and `%.1f` of a quotient.
pub record Layout : Type 0 where
  pub rfc3339 : ℕ → Text
  pub one_decimal : ℕ → ℕ → Text

unfoldable pub human_bytes : Layout → ℕ → Text
unfolding itoa
human_bytes l size =
    if leb 1073741824 size
    then l.one_decimal size 1073741824 ++ codes " GB"
    else if leb 1048576 size
    then l.one_decimal size 1048576 ++ codes " MB"
    else if leb 1024 size
    then l.one_decimal size 1024 ++ codes " KB"
    else itoa size ++ codes " B"

abbrev usage : Layout → Text → Resource → Text
usage l what r =
    what
    ++ human_bytes l r.used_bytes
    ++ codes " used of "
    ++ human_bytes l r.total_bytes
    ++ codes " ("
    ++ format_int r.used_percent
    ++ codes "% used)"
    ++ 10 ∷ []

unfoldable pub mail_body : Layout → Status → Text
unfolding human_bytes format_int join
mail_body l s =
    codes "CaddyTower detected low VPS resources at "
    ++ l.rfc3339 s.collected_at
    ++ codes "."
    ++ 10 ∷ 10 ∷ join (10 ∷ []) s.warnings
    ++ 10 ∷ 10 ∷ usage l (codes "Memory: ") s.memory
    ++ usage l (codes "Disk: ") s.disk
    ++ codes "Disk path: "
    ++ s.disk_path
    ++ 10 ∷ []

-- A mail that was delivered: its warnings as `lastSent` keys them, the time at which the cooldown was
-- read and the time at which the mail was recorded.
pub record Mail : Type 0 where
  pub key : Text
  pub checked_at : ℕ
  pub sent_at : ℕ
  pub body : Text

-- The service, and the mails delivered, the newest first. A time is in nanoseconds since the zero time
-- of Go, which is what a missing key of `lastSent` reads as.
pub record Service : Type 0 where
  pub cfg : Config
  pub last_sent : Text → ℕ
  pub delivered : List Mail

unfoldable pub new : Config → Service
new c = record { cfg = c; last_sent = λ _. 0; delivered = [] }

-- What one firing of the timer finds: the machine, the clock at its three readings, whether the context
-- is cancelled, and whether the SMTP server takes the mail.
pub record Tick : Type 0 where
  pub machine : Machine
  pub snapshot_at : ℕ
  pub check_at : ℕ
  pub recorded_at : ℕ
  pub cancelled : Bool
  pub smtp_accepts : Bool

-- `time.Duration(minutes) * time.Minute`: nanoseconds in 64 bits, read with a sign.
unfoldable pub cooldown : Config → ℤ
unfolding int_of
cooldown c = int_of ((c.vps_warning_cooldown_minutes * 60000000000) % two_to_64)

-- `smtpMailer.Send`, without the headers of the message: whether it returns no error.
unfoldable pub send : Config → Tick → Bool
unfolding warning_email_configured
send c t = warning_email_configured c && not t.cancelled && t.smtp_accepts

abbrev warning_key : Status → Text
warning_key s = join (codes "|") s.warnings

-- The mail was sent less than a cooldown ago: `now - last < wait`, with a sign.
abbrev pub in_cooldown : ℕ → ℕ → ℤ → Bool
in_cooldown last now (pos wait) = not (last == 0) && ltb now (last + wait)
in_cooldown last now (negsuc n) = not (last == 0) && ltb (now + n + 1) last

-- The warnings are mailed under a key, and the delivery is recorded.
unfoldable pub notify : Layout → Service → Tick → Text → Text → Service
unfolding send cooldown text_eq
notify l s t key body =
    if in_cooldown (s.last_sent key) t.check_at (cooldown s.cfg)
    then s
    else if send s.cfg t
    then record s {
      last_sent = λ k. if text_eq key k then t.recorded_at else s.last_sent k;
      delivered =
          record { key = key; checked_at = t.check_at; sent_at = t.recorded_at; body = body }
          ∷ s.delivered;
    }
    else s

abbrev notify_status : Layout → Service → Tick → Result MonitorError Status → Service
notify_status l s t (error e) = s
notify_status l s t (value status) =
    if is_empty status.warnings
    then s
    else if not status.email_configured
    then s
    else notify l s t (warning_key status) (mail_body l status)

unfoldable pub check_and_notify : Layout → Service → Tick → Service
unfolding collect_status notify mail_body join
check_and_notify l s t = notify_status l s t (collect_status s.cfg t.machine t.snapshot_at)
