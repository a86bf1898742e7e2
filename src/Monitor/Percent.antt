-- ===== src/Monitor/Percent.antt =====
-- The percentages of the monitor's readings (internal/monitor/service.go).
use native.Mathlib.Nat.{div-add-mod', mod-lt, div-lt_iff_lt-mul}
use caddytower.Prelude.{
  ℕ, ◌+◌, ◌*◌, ◌-◌, ◌/◌, ◌%◌, ◌≤◌, ◌<◌, ◌≡◌, ap, ◌∙◌, inl, inr, true, ◌||◌, ◌==◌, ltb, Bool-cases,
  arith, some, none, Option, exists, is_empty, if◌then◌else◌,
}
use caddytower.Prelude.Int.{pos}
use caddytower.Prelude.Results.{value, error, Holds, held, erred, bind-Holds, Holds-value}
use caddytower.Prelude.Decimal.{two_to_64, int_of}
use caddytower.Prelude.Texts.{Text, codes, scan_lines, split, trim_space}
use caddytower.Monitor.{
  unusable_meminfo, invalid_capacity, Resource, Config, Status, MonitorError, Machine, Statfs,
  resource_from_used_total, usable, parse_meminfo, collect_memory, collect_disk, disk_of,
  collect_status, status_of, too_long, read_values, available_memory,
}

quotient : ℕ → ℕ → ℕ
quotient used total = ((used * 100 + total / 2) % two_to_64) / total

quotient-le : (used total : ℕ) → used ≤ total → 0 < total → quotient used total ≤ 100
unfolding quotient
quotient-le used total h p =
    let below : (used * 100 + total / 2) % two_to_64 < 101 * total = omega arith in
    let small : quotient used total < 101 = (div-lt_iff_lt-mul p).1 below in omega arith

-- The numbers of a reading, and percentages that are at most 100 and add up to it.
abbrev pub Percents : Resource → Type 0
Percents r =
    (r.used_bytes ≤ r.total_bytes)
    × (0 < r.total_bytes)
    × ((p : ℕ) × (p ≤ 100) × (r.used_percent ≡ pos p) × (r.free_percent ≡ pos (100 - p)))

int_of_small : (n : ℕ) → n ≤ 100 → int_of n ≡ pos n
unfolding int_of
int_of_small n h = ground arith

free_percent_of : (q : ℕ) → q ≤ 100 → int_of ((two_to_64 + 100 - q) % two_to_64) ≡ pos (100 - q)
free_percent_of q h =
    let wrapped : (two_to_64 + 100 - q) % two_to_64 ≡ 100 - q = omega arith in
    ap int_of wrapped ∙ int_of_small (100 - q) (omega arith)

resource-Percents :
    (used total : ℕ) → used ≤ total → 0 < total → Percents (resource_from_used_total used total)
unfolding resource_from_used_total quotient
resource-Percents used total h p =
    let q = quotient-le used total h p in
    let filled : ltb 0 total ≡ true = ground arith in
    rw filled (h, p, (quotient used total, q, int_of_small _ q, free_percent_of _ q))

usable-Percents :
    (e : MonitorError) (total available : ℕ) → Holds Percents (usable e total available)
usable-Percents e total available = elim (Bool-cases (total == 0 || ltb total available)) [
  | inl bad ↦ rw bad erred
  | inr good ↦
      rw good (held (resource-Percents (total - available) total (omega arith) (ground arith)))
]

parse_meminfo-Percents : (content : Text) → Holds Percents (parse_meminfo content)
unfolding parse_meminfo
parse_meminfo-Percents content = elim (Bool-cases (exists too_long (split 10 content))) [
  | inl long ↦ rw long erred
  | inr short ↦
      let values = read_values (λ _. 0) (scan_lines content) in
      rw short
        (usable-Percents unusable_meminfo (values (codes "MemTotal")) (available_memory values))
]

collect_memory-Percents : (m : Machine) → Holds Percents (collect_memory m)
collect_memory-Percents m = go m.meminfo
  where
    go :
        (o : Option Text)
        → Holds Percents (elim o [
          | none ↦ error MonitorError.read_meminfo
          | some content ↦ parse_meminfo content
        ])
    go none = erred
    go (some content) = parse_meminfo-Percents content

disk_of-Percents : (o : Option Statfs) → Holds Percents (disk_of o)
disk_of-Percents none = erred
disk_of-Percents (some s) =
    usable-Percents invalid_capacity ((s.blocks * s.bsize) % two_to_64)
      ((s.bavail * s.bsize) % two_to_64)

collect_disk-Percents : (m : Machine) (path : Text) → Holds Percents (collect_disk m path)
unfolding collect_disk
collect_disk-Percents m path = go (if is_empty (trim_space path) then codes "." else path)
  where
    go :
        (dir : Text)
        → Holds Percents (
            if m.mkdir_all dir then disk_of (m.statfs dir) else error MonitorError.ensure_disk_path)
    go dir = elim (Bool-cases (m.mkdir_all dir)) [
      | inl e ↦ rw e (disk_of-Percents (m.statfs dir))
      | inr e ↦ rw e erred
    ]

abbrev pub Readings : Status → Type 0
Readings s = Percents s.memory × Percents s.disk

collect-Holds : (c : Config) (m : Machine) (now : ℕ) → Holds Readings (collect_status c m now)
unfolding collect_status status_of
collect-Holds c m now =
    bind-Holds (collect_memory-Percents m)
      (λ memory h. bind-Holds (collect_disk-Percents m c.data_dir) (λ disk k. held (h, k)))

-- Whatever the files and the file system of the machine say, a status that is collected has readings
-- of memory and disk with a capacity above 0 and no more used than that, and in both the used and the
-- free percentage are between 0 and 100 and add up to 100, also where the 64-bit arithmetic wraps.
pub collect_status-Readings :
    (c : Config) (m : Machine) (now : ℕ) (s : Status)
    → collect_status c m now ≡ value s
    → Readings s
collect_status-Readings c m now s h = Holds-value (collect-Holds c m now) h

rounded :
    (used total q r m : ℕ)
    → m + r ≡ used * 100 + total / 2
    → r < total
    → (200 * used ≤ 2 * m + total) × (2 * m ≤ 200 * used + total)
rounded used total q r m e h = (omega arith, omega arith)

-- The used percentage is the part of the capacity in use, rounded to the nearest percent, for every
-- part of a capacity up to 2^64 / 101 bytes (162 petabytes), so that nothing wraps.
pub used_percent_rounds :
    (used total : ℕ)
    → used ≤ total
    → 0 < total
    → 101 * total ≤ two_to_64
    → (p : ℕ) × ((resource_from_used_total used total).used_percent ≡ pos p)
      × (200 * used ≤ 2 * (p * total) + total)
      × (2 * (p * total) ≤ 200 * used + total)
unfolding resource_from_used_total quotient
used_percent_rounds used total h p small =
    let q = quotient used total in
    let exact : (used * 100 + total / 2) % two_to_64 ≡ used * 100 + total / 2 = omega arith in
    let sum = div-add-mod' ((used * 100 + total / 2) % two_to_64) total ∙ exact in
    let near =
      rounded used total q (((used * 100 + total / 2) % two_to_64) % total) (q * total) sum
        (mod-lt _ p) in
    let filled : ltb 0 total ≡ true = ground arith in
    rw filled (q, int_of_small q (quotient-le used total h p), near.0, near.1)
