-- ===== src/Metrics/Sampling.antt =====
-- The processor's load between two rounds of the sampler.
use fbf_3ds_servers.Base.{ℕ, ◌+◌, ◌≤◌, ◌<◌, ◌^◌, List, ◌∷◌, length, All}
use fbf_3ds_servers.Metrics.{word_max, Floats}
use fbf_3ds_servers.Metrics.Cpu.{sum}

-- The counters of the first line of /proc/stat.
pub record Counters : Type 0 where
  pub user : ℕ
  pub nice : ℕ
  pub system : ℕ
  pub idle : ℕ
  pub iowait : ℕ
  pub more : List ℕ

abbrev pub list_of : Counters → List ℕ
list_of c = c.user ∷ c.nice ∷ c.system ∷ c.idle ∷ c.iowait ∷ c.more

abbrev pub idle_of : Counters → ℕ
idle_of c = c.idle + c.iowait

-- The kernel prints seven counters at least, and their sum is below 2 ^ 64.
pub record IsReadable (c : Counters) : Type 0 where
  pub words : All (λ n. n < 2 ^ 64) (list_of c)
  pub enough : 2 ≤ length c.more
  pub fits : sum (list_of c) < word_max

-- No counter falls, the last ones in their sum.
pub record Grows (c d : Counters) : Type 0 where
  pub user : c.user ≤ d.user
  pub nice : c.nice ≤ d.nice
  pub system : c.system ≤ d.system
  pub idle : c.idle ≤ d.idle
  pub iowait : c.iowait ≤ d.iowait
  pub more : sum c.more ≤ sum d.more

-- What the formula for the load promises in floats: where the rise of the idle counters is at most the
-- rise of all, and this is not 0, the result is between 0 and 100.
pub record IsUsage (floats : Floats) : Type 1 where
  pub Between : floats.F → Type 0
  pub between : (idle total : ℕ) → idle ≤ total → 0 < total → Between (floats.usage idle total)
