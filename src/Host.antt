-- ===== src/Host.antt =====
-- collectors/host.py: what the host says of itself in /proc, and what `collect` asks for.
pub mod Proc
pub mod Memory
pub mod Collect
pub mod Groups
pub mod Snapshot
pub mod Health
pub mod Bounds
pub mod Interfaces
pub mod Convert
pub mod Sample
mod Tests
use aws_ops_monitor.Prelude.{ℕ, String, Option}
use aws_ops_monitor.Prelude.Float.{Float}

-- Python's `float` of a text, `none` for a `ValueError`, and the hex digest of SHA-256.
pub record World : Type 0 where
  pub float : String → Option Float
  pub sha256_hex : String → String

-- the fields of `os.statvfs` that are used
pub record Statvfs : Type 0 where
  pub f_frsize : ℕ
  pub f_bsize : ℕ
  pub f_blocks : ℕ
  pub f_bavail : ℕ

-- What the operating system answers to one run of `collect`: the texts of the files under /proc,
-- `none` for one that cannot be read, and the values of the calls.
pub record Readings : Type 0 where
  pub clock : ℕ
  pub hostname : String
  pub uptime : Option String
  pub loadavg : Option String
  pub stat : Option String
  pub meminfo : Option String
  pub net_dev : Option String
  pub boot_id : Option String
  pub statvfs : Option Statvfs
  pub cpu_count : Option ℕ
