-- ===== src/Probes/Texts.antt =====
-- collectors/probes.py: the texts of the three observations of `collect`.
use aws_ops_monitor.Prelude.{
  ℕ, ◌≤◌, ◌≡◌, refl, inl, inr, String, Bool, true, false, Option, some, none, List, [], ◌∷◌, ◌++◌,
  All, any, length, ok, arith, str_eq, Bool-cases,
}
use aws_ops_monitor.Prelude.Int.{ℤ}
use aws_ops_monitor.Prelude.Text.{count, any_code}
use aws_ops_monitor.Prelude.Bounds.{any_str_eq-All}
use aws_ops_monitor.Models.{
  Scalar, text, int, bool, float, null, is_control, HealthState, Details, HealthObservation,
  health_observation, validate_metric_part, validate_detail_items, validate_detail_value,
}
use aws_ops_monitor.Models.Checks.{IsMetricPart}
use aws_ops_monitor.Probes.Handshake.{safe_reasons, safe_reason}
use aws_ops_monitor.Probes.Collect.{verified, path_details, evidence, status_details}

-- the texts that an observation may hold
abbrev public_texts : List String
public_texts =
    "Public DNS" ∷ "outbound check" ∷ "Lightsail>DNS resolver>global address" ∷ "verified"
    ∷ "failed" ∷ "disabled" ∷ "synthetic_probe" ∷ "Public Xray WebSocket" ∷ "inbound synthetic loop"
    ∷ "Lightsail>Cloudflare HTTPS>Xray WebSocket" ∷ "VPN application egress" ∷ "outbound synthetic"
    ∷ "Xray local proxy>WARP>Cloudflare trace" ∷ safe_reasons

abbrev messages : List String
messages =
    "public hostname resolved to a global address" ∷ "public hostname resolution failed"
    ∷ "public WebSocket upgrade returned HTTP 101" ∷ "public WebSocket upgrade check failed"
    ∷ "WARP trace marker observed" ∷ "WARP trace marker check failed"
    ∷ "WARP synthetic probe disabled" ∷ []

pub IsPublicText : String → Type 0
IsPublicText s = any (str_eq s) public_texts ≡ true

-- A detail is a text of the list, a number or a truth value.
abbrev IsPublicValue : Scalar → Type 0
IsPublicValue (text s) = IsPublicText s
IsPublicValue (int n) = Unit
IsPublicValue (bool b) = Unit
IsPublicValue (float x) = ⊥
IsPublicValue null = ⊥

abbrev detail_keys : List String
detail_keys =
    "name" ∷ "direction" ∷ "route" ∷ "status" ∷ "evidence" ∷ "required" ∷ "fresh_for_seconds"
    ∷ "reason" ∷ "latency_ms" ∷ "http_status" ∷ "trace_marker" ∷ []

-- A detail has a key and a value that the source writes.
abbrev IsPublicDetail : String × Scalar → Type 0
IsPublicDetail (key, value) = (any (str_eq key) detail_keys ≡ true) × IsPublicValue value

-- Every text of the observation, its component aside, is one that the source writes.
abbrev pub IsPublic : HealthObservation → Type 0
IsPublic o = (any (str_eq o.message) messages ≡ true) × All IsPublicDetail o.details

-- a public text that the constructor accepts as a detail
abbrev IsReason : String → Type 0
IsReason s = (count s ≤ 512) × IsPublicText s

safe_reasons-IsReason : All IsReason safe_reasons × IsReason "unavailable"
unfolding count IsPublicText
safe_reasons-IsReason = ground arith

safe_reason-IsReason : (value : String) → IsReason (safe_reason value)
unfolding safe_reason
safe_reason-IsReason value = elim (Bool-cases (any (str_eq value) safe_reasons)) [
  | inl known ↦ rw known (any_str_eq-All IsReason value safe_reasons known safe_reasons-IsReason.0)
  | inr other ↦ rw other safe_reasons-IsReason.1
]

abbrev observation : ℕ → String → HealthState → String → Details → HealthObservation
observation at component state message details = record {
  observed_at = at;
  component = component;
  state = state;
  message = message;
  details = details;
}

-- details that the constructor accepts, all of them public
abbrev pub AreFine : Details → Type 0
AreFine ds = (validate_detail_items ds ≡ ok tt) × (length ds ≤ 8) × All IsPublicDetail ds

-- a message that the constructor accepts and that the source writes
abbrev pub IsMessage : String → Type 0
IsMessage m = (count m ≤ 512) × (any_code is_control m ≡ false) × (any (str_eq m) messages ≡ true)

pub messages-IsMessage : All IsMessage messages
unfolding count any_code
messages-IsMessage = ground arith

pub fixed_texts-IsReason :
    IsReason "synthetic_probe"
    × IsReason "verified"
    × IsReason "failed"
    × IsReason "disabled"
    × IsReason "Public DNS"
    × IsReason "outbound check"
    × IsReason "Lightsail>DNS resolver>global address"
    × IsReason "Public Xray WebSocket"
    × IsReason "inbound synthetic loop"
    × IsReason "Lightsail>Cloudflare HTTPS>Xray WebSocket"
    × IsReason "VPN application egress"
    × IsReason "outbound synthetic"
    × IsReason "Xray local proxy>WARP>Cloudflare trace"
unfolding count IsPublicText
fixed_texts-IsReason = ground arith

pub path-ok :
    (at : ℕ) (component : String) (state : HealthState)
    (message name direction route status : String) (required : Bool) (fresh : ℕ) (tail : Details)
    → IsMetricPart component
    → IsMessage message
    → IsReason name × IsReason direction × IsReason route × IsReason status
    → AreFine tail
    → (o : HealthObservation) × (health_observation at component state message
          (path_details name direction route status required fresh ++ tail)
        ≡ ok o)
      × (o.component ≡ component)
      × (o.state ≡ state)
      × IsPublic o
unfolding health_observation validate_metric_part validate_detail_items validate_detail_value count
    any_code
path-ok at component state message name direction route status required fresh tail (a, b, c)
      (short, plain, known) ((n, n'), (d, d'), (r, r'), (st, st')) (valid, few, public) =
    (
      observation at component state message
          (path_details name direction route status required fresh ++ tail),
      ground (arith, a, b, c, short, plain, n, d, r, st, valid, few),
      refl,
      refl,
      (
        known,
        (
          (refl, n'),
          (
            (refl, d'),
            (
              (refl, r'),
              ((refl, st'), ((refl, fixed_texts-IsReason.0.1), ((refl, tt), ((refl, tt), public)))),
            ),
          ),
        ),
      ),
    )

pub evidence-AreFine : (reason : String) (latency : ℤ) → AreFine (evidence reason latency)
unfolding validate_detail_items validate_metric_part validate_detail_value count any_code
evidence-AreFine reason latency =
    let (short, public) = safe_reason-IsReason reason in
    (ground (arith, short), omega arith, ((refl, public), ((refl, tt), tt)))

pub websocket_evidence-AreFine :
    (reason : String) (latency : ℤ) (status : Option ℕ)
    → AreFine (evidence reason latency ++ status_details status)
unfolding validate_detail_items validate_metric_part validate_detail_value count any_code
websocket_evidence-AreFine reason latency none =
    let (short, public) = safe_reason-IsReason reason in
    (ground (arith, short), omega arith, ((refl, public), ((refl, tt), tt)))
websocket_evidence-AreFine reason latency (some n) =
    let (short, public) = safe_reason-IsReason reason in
    (ground (arith, short), omega arith, ((refl, public), ((refl, tt), ((refl, tt), tt))))

pub warp_evidence-AreFine :
    (reason : String) (latency : ℤ) (marker : Bool) (status : Option ℕ)
    → AreFine (evidence reason latency ++ (("trace_marker", bool marker) ∷ status_details status))
unfolding validate_detail_items validate_metric_part validate_detail_value count any_code
warp_evidence-AreFine reason latency marker none =
    let (short, public) = safe_reason-IsReason reason in
    (ground (arith, short), omega arith, ((refl, public), ((refl, tt), ((refl, tt), tt))))
warp_evidence-AreFine reason latency marker (some n) =
    let (short, public) = safe_reason-IsReason reason in
    (
      ground (arith, short),
      omega arith,
      ((refl, public), ((refl, tt), ((refl, tt), ((refl, tt), tt)))),
    )

pub verified-IsReason : (b : Bool) → IsReason (verified b)
verified-IsReason true = fixed_texts-IsReason.1
verified-IsReason false = fixed_texts-IsReason.2

pub components :
    IsMetricPart "path_public_dns"
    × IsMetricPart "path_cloudflare_xray"
    × IsMetricPart "path_xray_egress"
unfolding count any_code
components = ground arith
