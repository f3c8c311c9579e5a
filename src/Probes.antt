-- ===== src/Probes.antt =====
-- collectors/probes.py: the checks of the paths. Bytes are texts of code points below 256.
pub mod Handshake
pub mod Resolve
pub mod WebSocket
pub mod Trace
pub mod Collect
pub mod Receive
pub mod Rounds
pub mod Texts
pub mod Health
pub mod Accepted
pub mod Addresses
mod Tests
use aws_ops_monitor.Prelude.{ℕ, String, Bool, Option, List}
use aws_ops_monitor.Prelude.Int.{ℤ}

-- what is asked of an address of `ipaddress`: whether it is global, and its `str`
pub record Address : Type 0 where
  pub is_global : Bool
  pub text : String

-- What the probes call: `ipaddress.ip_address`, `none` for a `ValueError`, and the base64 form of the
-- SHA-1 digest of a text.
pub record World : Type 0 where
  pub ip_address : String → Option Address
  pub accept_of : String → String

pub record DnsResult : Type 0 where
  pub succeeded : Bool
  pub addresses : List String
  pub reason : String
  pub latency_ms : ℤ

pub record ProbeResult : Type 0 where
  pub succeeded : Bool
  pub reason : String
  pub latency_ms : ℤ
  pub status_code : Option ℤ
  pub marker_observed : Option Bool

-- The exceptions that the probes tell apart: `TimeoutError`; `ssl.SSLError`; and `OSError`,
-- `ValueError` or `HTTPException`.
pub data Failure : Type 0 where
  timed_out tls_error other_failure : Failure

-- what a call returns, or raises
pub data Step (A : Type 0) : Type 0 where
  done : A → Step A
  failed : Failure → Step A
