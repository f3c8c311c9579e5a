-- ===== src/Xray/Container.antt =====
-- collectors/xray.py: `_parse_container_state` and `_reset_identity`.
use Prim.Native.String
use aws_ops_monitor.Prelude.{
  ℕ, ◌^◌, ◌-◌, String, Bool, true, false, not, ◌||◌, Option, none, some, List, [], ◌∷◌, any, ltb,
  leb, str_eq, if◌then◌else◌,
}
use aws_ops_monitor.Prelude.Int.{ℤ, pos, is_zero}
use aws_ops_monitor.Prelude.Numerals.{parse_int}
use aws_ops_monitor.Prelude.Text.{
  count, is_blank, is_space, lstrip, rstrip, strip, split_on, lower_is, take_text, join_nul,
}
use aws_ops_monitor.Xray.{World, CommandResult}

pub record ContainerState : Type 0 where
  pub inspect_ok : Bool
  pub reset_material : String
  pub status : String
  pub restart_count : Option ℕ
  pub oom_killed : Option Bool

-- `ContainerState(False)`
abbrev pub no_evidence : ContainerState
no_evidence = record {
  inspect_ok = false;
  reset_material = "inspect-unavailable";
  status = "unknown";
  restart_count = none;
  oom_killed = none;
}

abbrev pub container_states : List String
container_states =
    "created" ∷ "running" ∷ "paused" ∷ "restarting" ∷ "removing" ∷ "exited" ∷ "dead" ∷ []

abbrev pub is_container_state : String → Bool
is_container_state status = any (str_eq status) container_states

-- `not text or len(text) > 128`
abbrev pub unbounded : String → Bool
unbounded s = is_blank s || ltb 128 (count s)

abbrev pub read_bool : String → Option Bool
read_bool raw =
    if lower_is raw "true" then some true else if lower_is raw "false" then some false else none

-- the state, once its numbers are read
unfoldable pub inspected : String → String → String → Option ℤ → Option Bool → ContainerState
inspected container_id started_at status (some (pos restarts)) (some oom) =
    if leb restarts (2 ^ 31 - 1)
    then record {
      inspect_ok = true;
      reset_material = String.◌++◌ container_id (String.◌++◌ "|" started_at);
      status = status;
      restart_count = some restarts;
      oom_killed = some oom;
    }
    else no_evidence
inspected container_id started_at status _ _ = no_evidence

unfoldable pub parse_fields : List String → ContainerState
unfolding inspected parse_int count lower_is
parse_fields (container_id ∷ started_at ∷ status ∷ raw_restarts ∷ raw_oom ∷ []) =
    if unbounded container_id || unbounded started_at || not (is_container_state status)
    then no_evidence
    else inspected container_id started_at status (parse_int raw_restarts) (read_bool raw_oom)
parse_fields _ = no_evidence

unfoldable pub parse_container_state : CommandResult → ContainerState
unfolding parse_fields split_on lstrip rstrip
parse_container_state result =
    if not (is_zero result.returncode) || ltb 4096 (String.len result.stdout)
    then no_evidence
    else parse_fields (split_on b'|' (strip is_space result.stdout))

unfoldable pub reset_identity : World → String → String
unfolding take_text join_nul lstrip rstrip
reset_identity world inspect_output =
    String.◌++◌ "xray-container:"
      (take_text 24 (world.sha256_hex (join_nul "xray-container" (strip is_space inspect_output))))
