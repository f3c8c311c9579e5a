-- ===== src/Xray.antt =====
-- collectors/xray.py: the counters of Xray, and the state of its container.
pub mod Payload
pub mod Stats
pub mod Container
pub mod Collect
pub mod Scan
pub mod Keys
pub mod Evidence
pub mod Counters
pub mod Convert
pub mod Outcomes
pub mod States
pub mod Sample
mod Tests
use aws_ops_monitor.Prelude.{ℕ, String, Option, List, Result}
use aws_ops_monitor.Prelude.Int.{ℤ}
use aws_ops_monitor.Prelude.Json.{Json}

-- What the parser calls: `json.loads`, `none` for a `JSONDecodeError` and `err` for any other
-- exception; the hex digest of HMAC under a key; and that of SHA-256.
pub record World : Type 0 where
  pub json_loads : String → Result (Option Json)
  pub hmac_hex : List ℕ → String → String
  pub sha256_hex : String → String

-- the exit status and the standard output of a command
pub record CommandResult : Type 0 where
  pub returncode : ℤ
  pub stdout : String
