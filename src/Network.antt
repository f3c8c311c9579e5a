-- ===== src/Network.antt =====
-- collectors/network.py: the listeners that `ss` reports, and the policy on their exposure.
pub mod Parse
pub mod Policy
pub mod Collect
pub mod Listeners
pub mod Exposure
pub mod Texts
pub mod Expected
pub mod Paths
pub mod Details
pub mod Total
mod Tests
use aws_ops_monitor.Prelude.{String, Bool, Option}
use aws_ops_monitor.Prelude.Int.{ℤ}

-- what the source asks of an address of the `ipaddress` module
pub record IpAddress : Type 0 where
  pub is_loopback : Bool
  pub is_link_local : Bool

-- `ipaddress.ip_address`, `none` for a `ValueError`
abbrev pub IpParser : Type 0
IpParser = String → Option IpAddress

-- the exit status and the output of `ss`
pub record CommandResult : Type 0 where
  pub returncode : ℤ
  pub stdout : String
