-- ===== src/Api/Probe.antt =====
-- The probes of internal/api/heartbeat_linux.go. The kernel's answers are a parameter, and so are the
-- floating-point numbers.
pub mod Cpu
pub mod Memory
mod Other
mod Tests
use routestack_agent.Base.{
  ℕ, ℤ, pos, negsuc, negated, zero, suc, ◌+◌, ◌-◌, ◌*◌, ◌/◌, ◌%◌, ◌^◌, Text, Bool, true, false,
  List, [], ◌∷◌, ◌++◌, Option, none, some, codes, is_empty, ltb, ◌==◌, ◌||◌, not, text_eq,
  has_prefix, trim_prefix, scan_lines, fields, parse_uint, parse_int, length, if◌then◌else◌,
  is_zero,
}
use routestack_agent.Json.{Json}
use routestack_agent.World.{Result, ok, err}

-- float64
pub record Floats (F : Type 0) : Type 0 where
  -- of an integer
  pub of_nat : ℕ → F
  pub minus : F → F → F
  pub times : F → F → F
  pub over : F → F → F
  -- math.Round
  pub round : F → F
  -- strconv.ParseFloat(s, 64), its error left aside
  pub parse_float : Text → F
  -- how encoding/json prints it, where it is finite
  pub print_float : F → Json

pub record SystemMetrics (F : Type 0) : Type 0 where
  pub cpu_percent : F
  pub memory_used_mb : ℤ
  pub disk_free_gb : F
  pub load_avg_1m : F

pub record CpuStat : Type 0 where
  pub total : ℕ
  pub idle : ℕ

-- What the host answers while one heartbeat is collected: files that can be read, and system calls.
pub record Probe : Type 0 where
  pub os_release : Option Text
  -- uname: the machine and the release, as bytes
  pub uname : Option (List ℕ × List ℕ)
  -- /proc/stat, twice
  pub stat_before : Option Text
  pub stat_after : Option Text
  -- /proc/meminfo, twice
  pub meminfo_total : Option Text
  pub meminfo_available : Option Text
  -- statfs: the free blocks and their size
  pub statfs : Option (ℕ × ℕ)
  pub loadavg : Option Text

-- strings.Trim(s, "\""), at the start and at the end.
unfoldable pub drop_quotes : Text → Text
drop_quotes [] = []
drop_quotes (c ∷ s) = let rest = drop_quotes s in if c == b'"' then rest else c ∷ s

unfoldable pub drop_last_quotes : Text → Text
drop_last_quotes [] = []
drop_last_quotes (c ∷ s) =
    let rest = drop_last_quotes s in
    if c == b'"' then (if is_empty rest then [] else c ∷ rest) else c ∷ rest

-- The first PRETTY_NAME among the lines.
unfoldable pub pretty_name : List Text → Text
unfolding drop_quotes drop_last_quotes
pretty_name [] = []
pretty_name (line ∷ lines) =
    if has_prefix line (codes "PRETTY_NAME=")
    then drop_last_quotes (drop_quotes (trim_prefix line (codes "PRETTY_NAME=")))
    else pretty_name lines

-- readOSRelease
unfoldable pub read_os_release : Option Text → Text
unfolding pretty_name
read_os_release none = []
read_os_release (some text) = pretty_name (scan_lines text)

-- charsToString, on bytes.
unfoldable pub chars_to_string : List ℕ → Text
chars_to_string [] = []
chars_to_string (c ∷ cs) = let rest = c ∷ chars_to_string cs in if c == 0 then [] else rest

-- if s == "" { s = value }
unfoldable pub known_or : Text → Text → Text
known_or value s = if is_empty s then value else s

uname_or_empty : Option (List ℕ × List ℕ) → List ℕ × List ℕ
uname_or_empty none = ([], [])
uname_or_empty (some u) = u

-- CollectSystemInfo: the operating system, the architecture and the kernel.
unfoldable pub collect_system_info : Probe → Text × Text × Text
unfolding read_os_release uname_or_empty chars_to_string known_or
collect_system_info p =
    let (machine, release) = uname_or_empty p.uname in
    (
      known_or (codes "Linux") (read_os_release p.os_release),
      known_or (codes "unknown") (chars_to_string machine),
      known_or (codes "unknown") (chars_to_string release),
    )

-- The loop of readCPUStat over fields[1:], from index `i` on.
unfoldable pub add_fields : ℕ → List Text → CpuStat → CpuStat
add_fields i [] s = s
add_fields i (f ∷ fs) s =
    let val = parse_uint f in
    add_fields (suc i) fs
      (record { total = (s.total + val) % 2 ^ 64; idle = if i == 3 then val else s.idle })

-- The first line of /proc/stat.
unfoldable pub cpu_line : List Text → Result CpuStat
unfolding add_fields
cpu_line [] = err (codes "unexpected /proc/stat format")
cpu_line (name ∷ values) =
    if ltb (length (name ∷ values)) 5 || not (text_eq name (codes "cpu"))
    then err (codes "unexpected /proc/stat format")
    else ok (add_fields 0 values (record { total = 0; idle = 0 }))

-- readCPUStat
unfoldable pub read_cpu_stat : Option Text → Result CpuStat
unfolding cpu_line
read_cpu_stat none = err (codes "open /proc/stat")
read_cpu_stat (some text) = elim (scan_lines text) [
  | [] ↦ err (codes "empty /proc/stat")
  | line ∷ _ ↦ cpu_line (fields line)
]

-- The field of the first line that begins with the key and has a value.
unfoldable pub meminfo_value : Text → List Text → ℤ
meminfo_value key [] = pos 0
meminfo_value key (line ∷ lines) =
    let rest = meminfo_value key lines in
    if has_prefix line (key ++ codes ":")
    then elim (fields line) [ _ ∷ value ∷ _ ↦ parse_int value | _ ↦ rest ]
    else rest

-- procMeminfoField
unfoldable pub proc_meminfo_field : Text → Option Text → ℤ
unfolding meminfo_value
proc_meminfo_field key none = pos 0
proc_meminfo_field key (some text) = meminfo_value key (scan_lines text)

-- int64 in two's complement.
abbrev pub word_of : ℤ → ℕ
word_of (pos n) = n % 2 ^ 64
word_of (negsuc n) = 2 ^ 64 - 1 - n % 2 ^ 64

abbrev pub int_of : ℕ → ℤ
int_of w = if ltb w (2 ^ 63) then pos w else negsuc (2 ^ 64 - 1 - w)

-- a - b on int64
abbrev pub minus_int64 : ℤ → ℤ → ℤ
minus_int64 a b = int_of ((word_of a + (2 ^ 64 - word_of b)) % 2 ^ 64)

-- n / 1024 on int64, towards zero
abbrev pub kilo : ℤ → ℤ
kilo (pos n) = pos (n / 1024)
kilo (negsuc n) = negated (suc n / 1024)

-- memoryUsedMB
unfoldable pub used_memory : Option Text → Option Text → ℤ
unfolding proc_meminfo_field
used_memory before after =
    let total = proc_meminfo_field (codes "MemTotal") before in
    let available = proc_meminfo_field (codes "MemAvailable") after in
    if is_zero total then pos 0 else kilo (minus_int64 total available)

module _ {F : Type 0} (R : Floats F) where
  -- The end of cpuPercent.
  unfoldable pub usage : CpuStat → CpuStat → F
  usage a b =
      let idle = (b.idle + (2 ^ 64 - a.idle)) % 2 ^ 64 in
      let total = (b.total + (2 ^ 64 - a.total)) % 2 ^ 64 in
      let share = R.minus (R.of_nat 1) (R.over (R.of_nat idle) (R.of_nat total)) in
      if total == 0
      then R.of_nat 0
      else R.over (R.round (R.times (R.times share (R.of_nat 100)) (R.of_nat 10))) (R.of_nat 10)

  -- cpuPercent
  unfoldable pub cpu_usage : Option Text → Option Text → F
  unfolding usage
  cpu_usage before after = elim (read_cpu_stat before) [
    | err e ↦ R.of_nat 0
    | ok a ↦ elim (read_cpu_stat after) [ err e ↦ R.of_nat 0 | ok b ↦ usage a b ]
  ]

  -- diskFreeGB
  unfoldable pub disk_free : Option (ℕ × ℕ) → F
  disk_free none = R.of_nat 0
  disk_free (some (blocks, size)) =
      R.over (R.of_nat (blocks * size % 2 ^ 64)) (R.of_nat (1024 * 1024 * 1024))

  -- loadAvg1m
  unfoldable pub load_average : Option Text → F
  load_average none = R.of_nat 0
  load_average (some text) = elim (fields text) [
    | [] ↦ R.of_nat 0
    | first ∷ _ ↦ R.parse_float first
  ]

  -- CollectSystemMetrics
  unfoldable pub collect_system_metrics : Probe → SystemMetrics F
  unfolding cpu_usage disk_free load_average used_memory
  collect_system_metrics p = record {
    cpu_percent = cpu_usage p.stat_before p.stat_after;
    memory_used_mb = used_memory p.meminfo_total p.meminfo_available;
    disk_free_gb = disk_free p.statfs;
    load_avg_1m = load_average p.loadavg;
  }
