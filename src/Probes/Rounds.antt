-- ===== src/Probes/Rounds.antt =====
-- collectors/probes.py: `collect`, run after run.
use aws_ops_monitor.Prelude.{
  ℕ, ◌+◌, ◌*◌, ◌≤◌, ◌<◌, ◌≡◌, ◌↔◌, refl, ap, ◌∙◌, ◌⊎◌, inl, inr, Bool, true, false, ◌&&◌, Option,
  some, none, List, [], ◌∷◌, ◌++◌, Any, String, take, ok, arith, Bool-cases,
}
use aws_ops_monitor.Prelude.Float.{micro}
use aws_ops_monitor.Models.{HealthState, healthy, unavailable, disabled, HealthObservation}
use aws_ops_monitor.Probes.{World, Address, DnsResult, ProbeResult}
use aws_ops_monitor.Probes.Collect.{
  Settings, Probes, global_text, global_addresses, is_nonempty, state_if, unprobed, websocket_of,
  warp_of, run_probes, is_early, collect,
}
use aws_ops_monitor.Probes.Texts.{IsPublic}
use aws_ops_monitor.Probes.Health.{
  Made, dns_health-Made, websocket_health-Made, warp_health-Made, warp_disabled-Made,
}

-- A run is due if none was attempted before, or both five minutes and the configured interval have
-- passed since the last attempt.
abbrev pub IsDue : Settings → Option ℕ → ℕ → Type 0
IsDue settings none now = Unit
IsDue settings (some last) now =
    (last + 300 * micro ≤ now) × (last + settings.minimum_interval_seconds ≤ now)

abbrev pub IsEarly : Settings → Option ℕ → ℕ → Type 0
IsEarly settings none now = ⊥
IsEarly settings (some last) now =
    (now < last + 300 * micro) ⊎ (now < last + settings.minimum_interval_seconds)

IsEarly-cases :
    (settings : Settings) (last : Option ℕ) (now : ℕ)
    → ((is_early settings last now ≡ true) × IsEarly settings last now)
      ⊎ ((is_early settings last now ≡ false) × IsDue settings last now)
IsEarly-cases settings none now = inr (refl, tt)
IsEarly-cases settings (some last) now = ground arith

-- A run within five minutes or the configured interval of the last attempt leaves the last attempt and
-- returns no observation. Any other run is the last attempt afterwards, even where a probe raises, and
-- returns what the probes give.
pub collect-IsDue :
    (world : World) (settings : Settings) (last : Option ℕ) (p : Probes)
    → (IsEarly settings last p.now × (collect world settings last p ≡ (last, ok [])))
      ⊎ (IsDue settings last p.now
          × (collect world settings last p ≡ (some p.now, run_probes world settings p)))
unfolding collect
collect-IsDue world settings last p = elim (IsEarly-cases settings last p.now) [
  | inl (e, early) ↦ inl (early, rw e refl)
  | inr (e, due) ↦ inr (due, rw e refl)
]

-- the state is healthy if the condition holds, and else unavailable
abbrev pub HealthyIf : Type 0 → HealthState → Type 0
HealthyIf condition state =
    (condition × (state ≡ healthy)) ⊎ ((¬ condition) × (state ≡ unavailable))

state_if_lem : (b : Bool) → HealthyIf (b ≡ true) (state_if b)
state_if_lem true = inl (refl, refl)
state_if_lem false = inr (λ e. cc e, refl)

HealthyIf-iff : (p q : Type 0) (state : HealthState) → p ↔ q → HealthyIf p state → HealthyIf q state
HealthyIf-iff p q state (to, from) (inl (h, e)) = inl (to h, e)
HealthyIf-iff p q state (to, from) (inr (h, e)) = inr (λ x. h (from x), e)

-- the raw text is one of a global address
abbrev IsGlobal : World → String → Type 0
IsGlobal world raw = (a : Address) × (world.ip_address raw ≡ some a) × (a.is_global ≡ true)

-- The texts are those of the global addresses among the raw ones, in their order.
abbrev pub AreGlobals : World → List String → List String → Type 0
AreGlobals world [] texts = texts ≡ []
AreGlobals world (raw ∷ raws) texts =
    ((a : Address) × (rest : List String) × (world.ip_address raw ≡ some a)
      × (a.is_global ≡ true)
      × (texts ≡ a.text ∷ rest)
      × AreGlobals world raws rest)
    ⊎ ((¬ IsGlobal world raw) × AreGlobals world raws texts)

not-IsGlobal :
    (world : World) (raw : String) (a : Address)
    → world.ip_address raw ≡ some a
    → a.is_global ≡ false
    → ¬ IsGlobal world raw
not-IsGlobal world raw a e private (b, h, open_to_all) =
    let same : a ≡ b = cc (e, h) in cc (private, open_to_all, ap (λ x. x.is_global) same)

global_text-AreGlobals :
    (world : World) (raw : String) (raws rest : List String) (found : Option Address)
    → world.ip_address raw ≡ found
    → AreGlobals world raws rest
    → AreGlobals world (raw ∷ raws) (global_text found ++ rest)
global_text-AreGlobals world raw raws rest none e are = inr (λ (a, h, _). cc (e, h), are)
global_text-AreGlobals world raw raws rest (some a) e are = elim (Bool-cases a.is_global) [
  | inl open_to_all ↦ rw open_to_all (inl (a, rest, e, open_to_all, refl, are))
  | inr private ↦ rw private (inr (not-IsGlobal world raw a e private, are))
]

global_addresses-AreGlobals :
    (world : World) (raws : List String) → AreGlobals world raws (global_addresses world raws)
unfolding global_addresses
global_addresses-AreGlobals world [] = refl
global_addresses-AreGlobals world (raw ∷ raws) =
    global_text-AreGlobals world raw raws (global_addresses world raws) (world.ip_address raw) refl
      (global_addresses-AreGlobals world raws)

nonempty_iff :
    (world : World) (raws texts : List String)
    → AreGlobals world raws texts
    → (is_nonempty texts ≡ true) ↔ Any (IsGlobal world) raws
nonempty_iff world [] texts e = rw e ((λ h. cc h), (λ h. absurd h))
nonempty_iff world (raw ∷ raws) texts (inl (a, rest, e, open_to_all, made, _)) =
    rw made ((λ h. inl (a, e, open_to_all)), (λ h. refl))
nonempty_iff world (raw ∷ raws) texts (inr (other, are)) =
    let (to, from) = nonempty_iff world raws texts are in
    ((λ h. inr (to h)), (λ h. elim h [ inl here ↦ absurd (other here) | inr later ↦ from later ]))

-- The name was resolved, and one of the first four addresses is global.
abbrev pub IsResolved : World → DnsResult → Type 0
IsResolved world dns = (dns.succeeded ≡ true) × Any (IsGlobal world) (take 4 dns.addresses)

abbrev is_resolved : World → DnsResult → Bool
is_resolved world dns = dns.succeeded && is_nonempty (global_addresses world (take 4 dns.addresses))

is_resolved_iff :
    (world : World) (dns : DnsResult) → (is_resolved world dns ≡ true) ↔ IsResolved world dns
is_resolved_iff world dns =
    let raws = take 4 dns.addresses in
    let found =
      nonempty_iff world raws (global_addresses world raws)
        (global_addresses-AreGlobals world raws) in
    ground (arith, found)

both_iff : (a b : Bool) (p : Type 0) → (a ≡ true) ↔ p → ((a && b) ≡ true) ↔ (p × (b ≡ true))
both_iff true b p (to, from) = ((λ h. (to refl, h)), (λ (x, h). h))
both_iff false b p (to, from) = ((λ h. cc h), (λ (x, h). from x))

-- the state of the egress
abbrev pub IsEgress : Settings → ProbeResult → HealthState → Type 0
IsEgress settings warp state =
    ((settings.warp_enabled ≡ true) × HealthyIf (warp.succeeded ≡ true) state)
    ⊎ ((settings.warp_enabled ≡ false) × (state ≡ disabled))

warp_of-Made :
    (settings : Settings) (p : Probes) (warp : ProbeResult)
    → p.warp ≡ ok warp
    → (state : HealthState) × Made (warp_of settings p) "path_xray_egress" state
      × IsEgress settings warp state
unfolding warp_of
warp_of-Made settings p warp e = elim (Bool-cases settings.warp_enabled) [
  | inl on ↦ (
    state_if warp.succeeded,
    rw (on, e) (warp_health-Made settings p.clock warp),
    inl (on, state_if_lem warp.succeeded),
  )
  | inr off ↦ (disabled, rw off (warp_disabled-Made settings p.clock), inr (off, refl))
]

websocket_of-ok :
    (p : Probes) (dns : DnsResult) (found : Bool) (addresses : List String)
    (websocket : ProbeResult)
    → p.websocket addresses ≡ ok websocket
    → (r : ProbeResult) × (websocket_of p dns found addresses ≡ ok r)
      × (r.succeeded ≡ (found && websocket.succeeded))
websocket_of-ok p dns true addresses websocket e = (websocket, e, refl)
websocket_of-ok p dns false addresses websocket e = (unprobed dns, refl, refl)

-- Where the probes return, whatever addresses that of the WebSocket is given, a run gives three
-- observations. That of the name is healthy if it was resolved to a global address among the first
-- four, that of the WebSocket if also its probe succeeded on the global ones of them, that of the
-- egress if its probe did; each is unavailable otherwise, and that of the egress disabled if it is so
-- configured. Every text in them is one that the source writes: none comes from an address, a response
-- or an exception.
pub run_probes-IsPublic :
    (world : World) (settings : Settings) (p : Probes) (dns : DnsResult)
    (websocket : List String → ProbeResult) (warp : ProbeResult)
    → p.dns ≡ ok dns
    → ((addresses : List String) → p.websocket addresses ≡ ok (websocket addresses))
    → p.warp ≡ ok warp
    → (a b c : HealthObservation) × (addresses : List String) × (run_probes world settings p
        ≡ ok (a ∷ b ∷ c ∷ []))
      × AreGlobals world (take 4 dns.addresses) addresses
      × HealthyIf (IsResolved world dns) a.state
      × HealthyIf (IsResolved world dns × ((websocket addresses).succeeded ≡ true)) b.state
      × IsEgress settings warp c.state
      × ((a.component ≡ "path_public_dns") × IsPublic a)
      × ((b.component ≡ "path_cloudflare_xray") × IsPublic b)
      × ((c.component ≡ "path_xray_egress") × IsPublic c)
unfolding run_probes
run_probes-IsPublic world settings p dns websocket warp d w v =
    let addresses = global_addresses world (take 4 dns.addresses) in
    let found = is_resolved world dns in
    let reached = (websocket addresses).succeeded in
    let (a, a_ok, a_part, a_state, a_public) = dns_health-Made settings p.clock found dns in
    let (r, r_ok, r_succeeded) =
      websocket_of-ok p dns found addresses (websocket addresses) (w addresses) in
    let (b, b_ok, b_part, b_state, b_public) = websocket_health-Made settings p.clock r in
    let (state, (c, c_ok, c_part, c_state, c_public), egress) = warp_of-Made settings p warp v in
    (
      a,
      b,
      c,
      addresses,
      simp (d, a_ok, r_ok, b_ok, c_ok),
      global_addresses-AreGlobals world (take 4 dns.addresses),
      rw a_state (
          HealthyIf-iff (found ≡ true) (IsResolved world dns) (state_if found)
            (is_resolved_iff world dns) (state_if_lem found)),
      rw (b_state ∙ ap state_if r_succeeded) (
          HealthyIf-iff ((found && reached) ≡ true) (IsResolved world dns × (reached ≡ true))
            (state_if (found && reached))
            (both_iff found reached (IsResolved world dns) (is_resolved_iff world dns))
            (state_if_lem (found && reached))),
      rw c_state egress,
      (a_part, a_public),
      (b_part, b_public),
      (c_part, c_public),
    )
