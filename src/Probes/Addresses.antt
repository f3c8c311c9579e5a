-- ===== src/Probes/Addresses.antt =====
-- collectors/probes.py: the addresses that `resolve_public_addresses` returns.
use aws_ops_monitor.Prelude.{
  ℕ, ◌≤◌, ◌≡◌, refl, inl, inr, String, true, false, not, ◌&&◌, Option, some, none, List, [], ◌∷◌,
  ◌++◌, any, any-append, All, All-append, take, length, length-append, arith, ltb, leb, Bool-cases,
  str_eq, eq_iff, if-both,
}
use aws_ops_monitor.Prelude.Text.{count}
use aws_ops_monitor.Prelude.Int.{is_zero}
use aws_ops_monitor.Probes.{World, Address, DnsResult}
use aws_ops_monitor.Probes.Handshake.{bounded_ms}
use aws_ops_monitor.Probes.Resolve.{
  Command, expired, os_error, finished, address_of, first_word, add_address, resolve_lines,
  unresolved, resolved, byte_lines, resolve_public_addresses, max_dns_output_bytes,
}

-- the text of a global address of `ipaddress`
abbrev pub IsGlobal : World → String → Type 0
IsGlobal world s =
    (field : String) × (address : Address) × (world.ip_address field ≡ some address)
    × (address.is_global ≡ true)
    × (address.text ≡ s)

-- no two are the same
abbrev pub AreApart : List String → Type 0
AreApart [] = Unit
AreApart (a ∷ rest) = (any (str_eq a) rest ≡ false) × AreApart rest

abbrev pub ArePublic : World → List String → Type 0
ArePublic world addresses =
    All (IsGlobal world) addresses × AreApart addresses × (length addresses ≤ 4)

AreApart-append :
    (front : List String) (a : String)
    → AreApart front
    → any (str_eq a) front ≡ false
    → AreApart (front ++ a ∷ [])
AreApart-append [] a h e = (refl, tt)
AreApart-append (b ∷ front) a (here, rest) e = (
  ground (arith, here, e, any-append (str_eq b) front (a ∷ []), eq_iff a b, eq_iff b a),
  AreApart-append front a rest (ground (arith, e)),
)

address_of-some :
    (world : World) (field : String) (address : Address)
    → address_of world field ≡ some address
    → world.ip_address field ≡ some address
unfolding address_of
address_of-some world field address h = ground (arith, h)

add_address-ArePublic :
    (world : World) (o : Option Address) (addresses : List String)
    → ((address : Address)
        → o ≡ some address
        → (address.is_global ≡ true)
        → IsGlobal world address.text)
    → All (IsGlobal world) addresses
    → AreApart addresses
    → length addresses ≤ 3
    → ArePublic world (add_address o addresses)
add_address-ArePublic world none addresses f hs apart few = (hs, apart, omega (arith, few))
add_address-ArePublic world (some address) addresses f hs apart few =
    elim (Bool-cases (address.is_global && not (any (str_eq address.text) addresses))) [
      | inl e ↦ rw e (
        All-append (IsGlobal world) addresses (address.text ∷ []) hs
            (f address refl (ground (arith, e)), tt),
        AreApart-append addresses address.text apart (ground (arith, e)),
        omega (arith, few, length-append addresses (address.text ∷ [])),
      )
      | inr e ↦ rw e (hs, apart, omega (arith, few))
    ]

resolve_lines-ArePublic :
    (world : World) (lines addresses : List String)
    → All (IsGlobal world) addresses
    → AreApart addresses
    → length addresses ≤ 3
    → ArePublic world (resolve_lines world lines addresses)
unfolding resolve_lines
resolve_lines-ArePublic world [] addresses hs apart few = (hs, apart, omega (arith, few))
resolve_lines-ArePublic world (line ∷ lines) addresses hs apart few =
    let more = add_address (address_of world (first_word line)) addresses in
    let (hs', apart', few') =
      add_address-ArePublic world (address_of world (first_word line)) addresses
        (λ address e global. (
          first_word line,
          address,
          address_of-some world (first_word line) address e,
          global,
          refl,
        ))
        hs apart few in
    elim (Bool-cases (leb 4 (length more))) [
      | inl full ↦ rw full (hs', apart', few')
      | inr room ↦
          rw room (resolve_lines-ArePublic world lines more hs' apart' (ground (arith, room)))
    ]

resolved-ArePublic :
    (world : World) (addresses : List String) (latency : ℕ)
    → ArePublic world addresses
    → ArePublic world (resolved addresses latency).addresses
      × ((resolved addresses latency).succeeded
          ≡ leb 1 (length (resolved addresses latency).addresses))
resolved-ArePublic world [] latency h = (h, refl)
resolved-ArePublic world (a ∷ rest) latency h = (h, ground arith)

-- Whatever `getent` does, the addresses that are returned are texts of global addresses, at most four
-- and no two the same; the resolution succeeded exactly if there is one.
pub resolve_public_addresses-ArePublic :
    (world : World) (started ended : ℕ) (command : Command)
    → ArePublic world (resolve_public_addresses world started ended command).addresses
      × ((resolve_public_addresses world started ended command).succeeded
          ≡ leb 1 (length (resolve_public_addresses world started ended command).addresses))
unfolding resolve_public_addresses
resolve_public_addresses-ArePublic world started ended expired = ((tt, tt, omega arith), refl)
resolve_public_addresses-ArePublic world started ended os_error = ((tt, tt, omega arith), refl)
resolve_public_addresses-ArePublic world started ended (finished returncode stdout) =
    let P : DnsResult → Type 0 =
      λ r. ArePublic world r.addresses × (r.succeeded ≡ leb 1 (length r.addresses)) in
    let latency = bounded_ms started ended in
    if-both P (not (is_zero returncode)) (unresolved "resolution_failed" latency) _
      ((tt, tt, omega arith), refl)
      (if-both P (ltb max_dns_output_bytes (count stdout)) (unresolved "response_too_large" latency)
        (resolved (resolve_lines world (take 128 (byte_lines stdout)) []) latency)
        ((tt, tt, omega arith), refl)
        (resolved-ArePublic world (resolve_lines world (take 128 (byte_lines stdout)) []) latency
          (resolve_lines-ArePublic world (take 128 (byte_lines stdout)) [] tt tt (omega arith))))
