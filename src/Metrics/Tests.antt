-- ===== src/Metrics/Tests.antt =====
-- The files of /proc at concrete texts. The texts of two readings are in the kernel's form.
use fbf_3ds_servers.Base.{
  ℕ, ◌+◌, ◌%◌, ◌≡◌, ◌≤◌, refl, none, some, List, [], ◌∷◌, ◌++◌, Str, txt, pos, negsuc, atoi,
  parse_digits, fields, split_blank, not_empty, first_line, split, cut, trim_space, saturated,
  format_uint, arith,
}
use fbf_3ds_servers.Metrics.{
  word_max, cpu_loop, cpu_fields, read_cpu, atoi_value, int_sub, div_1024, mem_line, mem_lines,
  read_mem, net_fields, net_line, net_lines, read_net, Floats, Proc, cpu_of, net_of, sample,
  current_metrics,
}
use fbf_3ds_servers.Metrics.Cpu.{stat_text, sum, read_cpu_lem}
use fbf_3ds_servers.Metrics.Sampling.{IsUsage, Counters, list_of}

program : Unit {0}
unfolding cpu_loop cpu_fields read_cpu atoi_value int_sub div_1024 mem_line mem_lines read_mem
    net_fields net_line net_lines read_net cpu_of net_of sample current_metrics atoi parse_digits
    fields split_blank not_empty first_line split cut trim_space saturated format_uint
program = tt

abbrev lines : List Str → Str
lines [] = []
lines (l ∷ ls) = l ++ 10 ∷ lines ls

abbrev meminfo : Str
meminfo =
    lines (
      txt "MemTotal:        8000000 kB" ∷ txt "MemFree: 1 kB" ∷ txt "MemAvailable: 2000000 kB" ∷ [])

abbrev net_dev : Str
net_dev = lines (
    txt "Inter-|   Receive"
    ∷ txt " face |bytes packets"
    ∷ txt "    lo: 77 1 0 0 0 0 0 0 77 1"
    ∷ txt "  eth0: 100 1 0 0 0 0 0 0 23 1"
    ∷ [])

read_tests :
    (read_cpu (some (txt "cpu  1 2 3 40 5 6 7 8" ++ 10 ∷ txt "cpu0 1")) ≡ (45, 72))
    × (read_cpu (some (txt "cpu  1 2 3")) ≡ (0, 0))
    × (read_mem (some meminfo) ≡ (pos 5859, pos 7812))
    × (read_mem (some (txt "MemAvailable: 4096 kB")) ≡ (negsuc 3, pos 0))
    × (read_net (some net_dev) ≡ 123)
    × (read_net none ≡ 0)
unfolding program
read_tests = (refl, refl, refl, refl, refl, refl)

read_cpu_lem_example :
    read_cpu (some (stat_text (1 ∷ 2 ∷ 3 ∷ 40 ∷ 5 ∷ 6 ∷ 7 ∷ []) (txt "cpu0")))
    ≡ ((40 + 5) % word_max, sum (1 ∷ 2 ∷ 3 ∷ 40 ∷ 5 ∷ 6 ∷ 7 ∷ []) % word_max)
read_cpu_lem_example = read_cpu_lem 1 2 3 40 5 (6 ∷ 7 ∷ []) (txt "cpu0") (omega arith) (omega arith)

-- A load is the pair that the formula is applied to.
abbrev pairs : Floats
pairs = record { F = ℕ × ℕ; zero_float = (0, 0); usage = λ d e. (d, e); rate = λ b t. (b, t) }

abbrev early : Counters
early = record { user = 1; nice = 2; system = 3; idle = 40; iowait = 5; more = 6 ∷ 7 ∷ [] }

abbrev late : Counters
late = record { user = 11; nice = 2; system = 13; idle = 60; iowait = 5; more = 6 ∷ 7 ∷ [] }

abbrev proc_of : Counters → Proc
proc_of c = record {
  stat = some (stat_text (list_of c) []);
  meminfo = some meminfo;
  net_dev = none;
}

-- Two numbers stand for their quotient.
pairs-IsUsage : IsUsage pairs
pairs-IsUsage = record { Between = λ x. x.0 ≤ x.1; between = λ idle total below rises. below }
