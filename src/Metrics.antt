-- ===== src/Metrics.antt =====
-- server/metrics.go: the load of the machine, read from the texts of /proc. The two divisions of
-- floats are a parameter; a file that cannot be read is none.
pub mod Cpu
pub mod Sampling
mod Tests
use fbf_3ds_servers.Base.{
  zero, suc, ℕ, ◌+◌, ◌-◌, ◌/◌, ◌%◌, Bool, true, false, not, ◌||◌, ◌&&◌, Option, none, some, List,
  [], ◌∷◌, Str, txt, str_beq, nat_beq, ltb, leb, length, get_elem?, if◌then◌else◌, fields,
  first_line, split, cut, trim_space, saturated, ℤ, pos, negsuc, atoi, parse_digits,
}

-- Sums of uint64.
abbrev pub word_max : ℕ
word_max = 18446744073709551616

-- The loop of readCPU over the fields from the `i`-th on: idle and iowait are the fields 4 and 5.
unfoldable pub cpu_loop : ℕ → List Str → ℕ → ℕ → ℕ × ℕ
cpu_loop i [] idle total = (idle, total)
cpu_loop i (f ∷ fs) idle total =
    cpu_loop (i + 1) fs
      (if nat_beq i 4 || nat_beq i 5 then (idle + saturated f) % word_max else idle)
      ((total + saturated f) % word_max)

unfoldable pub cpu_fields : List Str → ℕ × ℕ
unfolding cpu_loop
cpu_fields [] = (0, 0)
cpu_fields (f ∷ fs) =
    if ltb (length (f ∷ fs)) 8 || not (str_beq f (txt "cpu")) then (0, 0) else cpu_loop 1 fs 0 0

-- readCPU: idle and total.
unfoldable pub read_cpu : Option Str → ℕ × ℕ
unfolding cpu_fields
read_cpu none = (0, 0)
read_cpu (some s) = cpu_fields (fields (first_line s))

-- The number that Atoi returns, with or without an error: what ParseUint gives of the digits, cut to
-- the numbers of 64 bits with a sign.
abbrev minus : ℕ → ℤ
minus zero = pos 0
minus (suc n) = negsuc n

abbrev with_sign : Bool → ℕ → ℤ
with_sign true n = if ltb n 9223372036854775808 then minus n else negsuc 9223372036854775807
with_sign false n = if ltb n 9223372036854775808 then pos n else pos 9223372036854775807

unfoldable pub atoi_value : Str → ℤ
unfolding saturated
atoi_value [] = pos 0
atoi_value (c ∷ s) =
    if nat_beq c b'-'
    then with_sign true (saturated s)
    else with_sign false (saturated (if nat_beq c b'+' then s else c ∷ s))

-- int64: the bit pattern, and the number of a bit pattern.
abbrev to_word : ℤ → ℕ
to_word (pos n) = n % word_max
to_word (negsuc n) = word_max - 1 - n

abbrev of_word : ℕ → ℤ
of_word w = if ltb w 9223372036854775808 then pos w else negsuc (word_max - 1 - w)

unfoldable pub int_sub : ℤ → ℤ → ℤ
int_sub a b = of_word ((to_word a + word_max - to_word b) % word_max)

abbrev minus_of : ℕ → ℤ
minus_of n = if nat_beq n 0 then pos 0 else negsuc (n - 1)

-- Division of ints cuts towards 0.
unfoldable pub div_1024 : ℤ → ℤ
div_1024 (pos n) = pos (n / 1024)
div_1024 (negsuc n) = minus_of ((n + 1) / 1024)

-- One line of /proc/meminfo: the values of `total` and `avail` after it.
unfoldable pub mem_line : List Str → ℤ × ℤ → ℤ × ℤ
unfolding atoi_value
mem_line (key ∷ value ∷ more) (total, avail) =
    if str_beq key (txt "MemTotal:")
    then (atoi_value value, avail)
    else if str_beq key (txt "MemAvailable:")
    then (total, atoi_value value)
    else (total, avail)
mem_line _ found = found

unfoldable pub mem_lines : List Str → ℤ × ℤ → ℤ × ℤ
unfolding mem_line
mem_lines [] found = found
mem_lines (line ∷ lines) found = mem_lines lines (mem_line (fields line) found)

-- readMem: used and total, in MB.
unfoldable pub read_mem : Option Str → ℤ × ℤ
unfolding mem_lines int_sub div_1024
read_mem none = (pos 0, pos 0)
read_mem (some s) =
    let (total, avail) = mem_lines (split 10 s) (pos 0, pos 0) in
    (div_1024 (int_sub total avail), div_1024 total)

-- What one line of /proc/net/dev adds, from its fields behind the colon: received and sent bytes.
unfoldable pub net_fields : List Str → ℕ
net_fields f = elim (get_elem? f 8) [
  | none ↦ 0
  | some tx ↦ elim (get_elem? f 0) [ none ↦ 0 | some rx ↦ (saturated rx + saturated tx) % word_max ]
]

-- The loopback interface and lines with no name are passed over.
unfoldable pub net_line : Str → ℕ
unfolding net_fields
net_line line = elim (cut b':' line) [
  | none ↦ 0
  | some (name, rest) ↦
      if str_beq (trim_space name) (txt "lo") || str_beq (trim_space name) []
      then 0
      else net_fields (fields rest)
]

unfoldable pub net_lines : List Str → ℕ → ℕ
unfolding net_line
net_lines [] bytes = bytes
net_lines (line ∷ lines) bytes = net_lines lines ((bytes + net_line line) % word_max)

-- readNet
unfoldable pub read_net : Option Str → ℕ
unfolding net_lines
read_net none = 0
read_net (some s) = net_lines (split 10 s) 0

-- The arithmetic of floats.
pub record Floats : Type 1 where
  pub F : Type 0
  pub zero_float : F
  -- (1 - float64(idle)/float64(total)) * 100
  pub usage : ℕ → ℕ → F
  -- float64(bytes) / seconds / 1024, for a time in nanoseconds.
  pub rate : ℕ → ℕ → F

-- The three files.
pub record Proc : Type 0 where
  pub stat : Option Str
  pub meminfo : Option Str
  pub net_dev : Option Str

module _ (floats : Floats) where
  open floats use {F, zero_float, usage, rate}

  -- sysMetrics
  pub record SysMetrics : Type 0 where
    pub cpu : F
    pub mem_used_mb : ℤ
    pub mem_total_mb : ℤ
    pub net_kbps : F

  -- The variables of the sampler and metricsSnap; `last_time` is none before the first round.
  pub record Sampler : Type 0 where
    pub last_idle : ℕ
    pub last_total : ℕ
    pub last_net : ℕ
    pub last_time : Option ℕ
    pub snap : SysMetrics

  abbrev pub no_metrics : SysMetrics
  no_metrics = record {
    cpu = zero_float;
    mem_used_mb = pos 0;
    mem_total_mb = pos 0;
    net_kbps = zero_float;
  }

  abbrev pub start : Sampler
  start = record {
    last_idle = 0;
    last_total = 0;
    last_net = 0;
    last_time = none;
    snap = no_metrics;
  }

  -- uint64 subtraction.
  abbrev pub word_sub : ℕ → ℕ → ℕ
  word_sub a b = (a + word_max - b) % word_max

  unfoldable pub cpu_of : Sampler → ℕ × ℕ → F
  cpu_of s (idle, total) =
      if not (nat_beq s.last_total 0) && ltb s.last_total total
      then usage (word_sub idle s.last_idle) (word_sub total s.last_total)
      else zero_float

  unfoldable pub net_of : Sampler → ℕ → ℕ → F
  net_of s net now = elim s.last_time [
    | none ↦ zero_float
    | some last ↦ if ltb last now then rate (word_sub net s.last_net) (now - last) else zero_float
  ]

  -- One round of startMetricsSampler, at a time in nanoseconds.
  unfoldable pub sample : Proc → ℕ → Sampler → Sampler
  unfolding cpu_of net_of
  sample proc now s = record {
    last_idle = (read_cpu proc.stat).0;
    last_total = (read_cpu proc.stat).1;
    last_net = read_net proc.net_dev;
    last_time = some now;
    snap = record {
      cpu = cpu_of s (read_cpu proc.stat);
      mem_used_mb = (read_mem proc.meminfo).0;
      mem_total_mb = (read_mem proc.meminfo).1;
      net_kbps = net_of s (read_net proc.net_dev) now;
    };
  }

  -- currentMetrics
  unfoldable pub current_metrics : Sampler → SysMetrics
  current_metrics s = s.snap
