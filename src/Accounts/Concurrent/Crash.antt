-- ===== src/Accounts/Concurrent/Crash.antt =====
-- The process of server/main.go dies and starts again while registrations of server/register.go run.
pub mod Phases
pub mod Durable
mod Tests
use fbf_3ds_servers.Base.{
  ℕ, ◌≡◌, Option, none, some, List, [], ◌∷◌, Str, Env, nat_beq, if◌then◌else◌,
}
use fbf_3ds_servers.Accounts.Store.{AccountTable}
use fbf_3ds_servers.Accounts.Register.{Request, Decoders, State}
use fbf_3ds_servers.Accounts.Boot.{Driver}
use fbf_3ds_servers.Accounts.Service.{Process, with_disk, start}
use fbf_3ds_servers.Accounts.Concurrent.{Stage, received, saved, answered, update, proceed}

pub data Moment : Type 0 where
  handler_turn : ℕ → Moment
  crash : Moment

-- A handler that has changed the table and has not answered is gone with its process: none. One
-- that has changed nothing is a request that may still arrive.
abbrev pub cut_off : Option Stage → Option Stage
cut_off (some (saved pid pw)) = none
cut_off fate = fate

module _ (table : AccountTable) (decoders : Decoders) (driver : Driver) (getenv : Env) where
  pub record World : Type 0 where
    pub fates : ℕ → Option Stage
    pub process : Process table

  abbrev pub go_on : ℕ → Option Stage → World → World
  go_on i none w = w
  go_on i (some h) w = record {
    fates = update w.fates i (some (proceed table decoders h w.process.state).0);
    process =
        with_disk table decoders driver getenv w.process.disk
          (proceed table decoders h w.process.state).1;
  }

  unfoldable pub happen : Moment → World → World
  unfolding proceed
  happen (handler_turn i) w = go_on i (w.fates i) w
  happen crash w = record {
    fates = λ i. cut_off (w.fates i);
    process = start table decoders driver getenv w.process.disk;
  }

  unfoldable pub happen_all : List Moment → World → World
  unfolding happen
  happen_all [] w = w
  happen_all (m ∷ ms) w = happen_all ms (happen m w)

  -- A process that has just started, over this database.
  abbrev pub first_day : (ℕ → Request) → table.Db → World
  first_day requests disk = record {
    fates = λ i. some (received (requests i));
    process = start table decoders driver getenv disk;
  }

  -- All that happens from a start over this database on.
  abbrev pub lived : (ℕ → Request) → table.Db → List Moment → World
  lived requests disk ms = happen_all ms (first_day requests disk)
