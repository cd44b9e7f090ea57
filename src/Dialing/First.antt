-- ===== src/Dialing/First.antt =====
-- Dials in turn: which address is answered for a host.
use oiwest_core.Common.{
  ℕ, ◌≡◌, refl, ap, inl, inr, ◌⊎◌, Bool, true, false, not, List, [], ◌∷◌, ◌++◌, if◌then◌else◌, All,
}
use oiwest_core.Dialing.{
  Ip, Error, no_addresses, Answer, conn, failed, prefer_ipv4, prefer_ipv6, of_version, dial_loop,
  dial_first, prefer, dial_ip_context,
}

-- A dial that an address refuses.
abbrev pub Refuses : (Ip → Answer) → Ip → Type 0
Refuses dial ip = (e : Error) × (dial ip ≡ failed e)

pub Answer-cases : (a : Answer) → ((c : ℕ) × (a ≡ conn c)) ⊎ ((e : Error) × (a ≡ failed e))
Answer-cases (conn c) = inl (c, refl)
Answer-cases (failed e) = inr (e, refl)

-- The first address that takes the connection, behind some that refuse it.
abbrev pub FirstOf : (Ip → Answer) → List Ip → ℕ → Type 0
FirstOf dial ips c =
    (before : List Ip) × (ip : Ip) × (after : List Ip) × (ips ≡ before ++ (ip ∷ after))
    × All (Refuses dial) before
    × (dial ip ≡ conn c)

dial_loop_lem :
    (dial : Ip → Answer) (last : Error) (ips : List Ip)
    → ((c : ℕ) × FirstOf dial ips c × (dial_loop dial last ips ≡ conn c))
      ⊎ (All (Refuses dial) ips × ((e : Error) × (dial_loop dial last ips ≡ failed e)))
unfolding dial_loop
dial_loop_lem dial last [] = inr (tt, (last, refl))
dial_loop_lem dial last (ip ∷ ips) = elim (Answer-cases (dial ip)) [
  | inl (c, taken) ↦ inl (c, ([], ip, ips, refl, tt, taken), rw (taken, dial_loop) refl)
  | inr (e, refused_) ↦ elim (dial_loop_lem dial e ips) [
    | inl (c, (before, at, after, split, none_, taken), all) ↦ inl (
      c,
      (ip ∷ before, at, after, ap (λ r. ip ∷ r) split, ((e, refused_), none_), taken),
      rw (refused_, dial_loop) all,
    )
    | inr (none_, (last', all)) ↦
        inr (((e, refused_), none_), (last', rw (refused_, dial_loop) all))
  ]
]

-- dialFirst answers the connection of the first address that takes it, after all before it refused, or an
-- error where all refuse.
pub dial_first_lem :
    (dial : Ip → Answer) (ips : List Ip)
    → ((c : ℕ) × FirstOf dial ips c × (dial_first dial ips ≡ conn c))
      ⊎ (All (Refuses dial) ips × ((e : Error) × (dial_first dial ips ≡ failed e)))
unfolding dial_first
dial_first_lem dial ips = dial_loop_lem dial no_addresses ips

failed-Refuses :
    (dial : Ip → Answer) (ips : List Ip) (e : Error)
    → dial_first dial ips ≡ failed e
    → All (Refuses dial) ips
failed-Refuses dial ips e h = elim (dial_first_lem dial ips) [
  | inl (c, _, made) ↦ cc (h, made)
  | inr (all, _) ↦ all
]

prefer_failed :
    (dial : Ip → Answer) (ips others : List Ip) (e : Error)
    → prefer dial true ips others ≡ failed e
    → All (Refuses dial) ips × All (Refuses dial) others
unfolding prefer
prefer_failed dial [] others e h = (tt, failed-Refuses dial others e h)
prefer_failed dial (ip ∷ ips) others e h = elim (Answer-cases (dial_first dial (ip ∷ ips))) [
  | inl (c, made) ↦ let wrong : conn c ≡ failed e = rw (made, prefer) at h in cc wrong
  | inr (e', made) ↦ (
    failed-Refuses dial (ip ∷ ips) e' made,
    failed-Refuses dial others e (rw (made, prefer) at h),
  )
]

at_version :
    (dial : Ip → Answer) (v : Bool) (ip : Ip) (fours sixes : List Ip)
    → All (Refuses dial) (if v then ip ∷ fours else fours)
    → All (Refuses dial) (if not v then ip ∷ sixes else sixes)
    → Refuses dial ip × (All (Refuses dial) fours × All (Refuses dial) sixes)
at_version dial true ip fours sixes (h, h4) h6 = (h, (h4, h6))
at_version dial false ip fours sixes h4 (h, h6) = (h, (h4, h6))

both_versions :
    (dial : Ip → Answer) (ips : List Ip)
    → All (Refuses dial) (of_version true ips)
    → All (Refuses dial) (of_version false ips)
    → All (Refuses dial) ips
unfolding of_version
both_versions dial [] h4 h6 = tt
both_versions dial (ip ∷ ips) h4 h6 =
    let (h, (h4', h6')) =
      at_version dial ip.four ip (of_version true ips) (of_version false ips) h4 h6 in
    (h, both_versions dial ips h4' h6')

-- With failover, a preference of a version fails only if every address of the host refuses.
pub dial_ip_context_fails :
    (dial : Ip → Answer) (parallel : Answer) (ips : List Ip) (e : Error)
    → (dial_ip_context dial parallel prefer_ipv4 true ips ≡ failed e → All (Refuses dial) ips)
      × (dial_ip_context dial parallel prefer_ipv6 true ips ≡ failed e → All (Refuses dial) ips)
unfolding dial_ip_context
dial_ip_context_fails dial parallel ips e = (
  λ h.
      let (h4, h6) = prefer_failed dial (of_version true ips) (of_version false ips) e h in
      both_versions dial ips h4 h6,
  λ h.
      let (h6, h4) = prefer_failed dial (of_version false ips) (of_version true ips) e h in
      both_versions dial ips h4 h6,
)
