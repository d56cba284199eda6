-- ===== src/Base/Environ.antt =====
-- The process environment (main.go): os.Getenv gives the empty text for an unset name.

use mathlib.Core.Option.{none, some}
use mathlib.Core.List.{[]}
use fbf_3ds_servers.Base.Tests.{if◌then◌else◌}
use fbf_3ds_servers.Base.Text.{Str, str_beq}
use fbf_3ds_servers.Base.Int.{ℤ, atoi}

abbrev pub Env : Type 0
Env = Str → Str

-- env
unfoldable pub env : Env → Str → Str → Str
env getenv key fallback = if str_beq (getenv key) [] then fallback else getenv key

-- envPort
unfoldable pub env_port : Env → Str → ℤ → ℤ
unfolding env atoi
env_port getenv key fallback = elim (atoi (env getenv key [])) [ none ↦ fallback | some n ↦ n ]
