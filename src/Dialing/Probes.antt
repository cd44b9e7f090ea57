-- ===== src/Dialing/Probes.antt =====
-- Probes of the lines: when a line dies and when it is back.
use oiwest_core.Common.{
  inr, inl, ==_iff, ℕ, ◌+◌, ◌≤◌, ◌≡◌, refl, ap, ◌∙◌, true, false, List, [], ◌∷◌, ◌==◌, Option, none,
  some, inl, inr, if◌then◌else◌, leb, Bool-cases, arith,
}
use oiwest_core.Mux.Assoc.{insert, lookup-insert}
use oiwest_core.Dialing.{
  Line, Stats, Pool, change, stats_of, after_failure, after_success, probe_addr,
}

-- The first line of a tag.
unfoldable pub line_of : ℕ → List Line → Option Line
line_of tag [] = none
line_of tag (l ∷ ls) = let rest = line_of tag ls in if l.tag == tag then some l else rest

line_of-change :
    (tag : ℕ) (f : Line → Line) (ls : List Line) (l : Line)
    → ((m : Line) → (f m).tag ≡ m.tag)
    → line_of tag ls ≡ some l
    → line_of tag (change tag f ls) ≡ some (f l)
unfolding line_of change
line_of-change tag f [] l same h = cc h
line_of-change tag f (m ∷ ls) l same h =
    let ih = line_of-change tag f ls l same in
    let e = same m in
    elim (Bool-cases (m.tag == tag)) [
      | inl t ↦
          let first : some m ≡ some l = rw (t, line_of) at h in
          rw (t, change, line_of, e, t) (cc first)
      | inr t ↦
          let later : line_of tag ls ≡ some l = rw (t, line_of) at h in
          rw (t, change, line_of, t) (ih later)
    ]

abbrev pub down : Line → Line
down l = record l { alive = false }

abbrev pub up : ℕ → Line → Line
up latency l = record l { alive = true; latency = latency }

-- The statistics after an update.
stats_of-insert :
    (tag : ℕ) (s : Stats) (ls : List Line) (p : Pool)
    → stats_of tag (record { addresses = ls; stats = insert tag s p.stats }) ≡ s
unfolding stats_of
stats_of-insert tag s ls p =
    rw (stats_of, lookup-insert tag tag s p.stats, (==_iff tag tag).1 refl) refl

pub fails_count :
    (tag latency : ℕ) (p : Pool)
    → (stats_of tag (probe_addr tag false latency p)).consecutive_fails
      ≡ (stats_of tag p).consecutive_fails + 1
unfolding probe_addr after_failure
fails_count tag latency p =
    ap (λ s. s.consecutive_fails)
      (stats_of-insert tag (after_failure latency (stats_of tag p))
        (probe_addr tag false latency p).addresses p)

fails_line :
    (tag latency : ℕ) (p : Pool) (l : Line)
    → line_of tag p.addresses ≡ some l
    → (m : Line) × (line_of tag (probe_addr tag false latency p).addresses ≡ some m)
      × (down m ≡ down l)
      × (3 ≤ (stats_of tag p).consecutive_fails + 1 → m ≡ down l)
unfolding probe_addr after_failure
fails_line tag latency p l h = elim (Bool-cases (leb 3 ((stats_of tag p).consecutive_fails + 1))) [
  | inl third ↦
      (down l, rw (third) (line_of-change tag down p.addresses l (λ _. refl) h), refl, λ _. refl)
  | inr early ↦ (l, rw (early) h, refl, λ more. absurd (ground arith))
]

-- After three probes in a row that fail, the first line of the tag is dead, whatever it was before, with
-- its address and weight as they were; and a probe that succeeds makes it alive again with the time of the
-- probe as its latency, and no failures in a row.
pub probe_addr_lem :
    (tag a b c d : ℕ) (p : Pool) (l : Line)
    → line_of tag p.addresses ≡ some l
    → (line_of tag
          (probe_addr tag false c (probe_addr tag false b (probe_addr tag false a p))).addresses
        ≡ some (down l))
      × (line_of tag (probe_addr tag true d p).addresses ≡ some (up d l))
      × ((stats_of tag (probe_addr tag true d p)).consecutive_fails ≡ 0)
unfolding probe_addr after_success
probe_addr_lem tag a b c d p l h =
    let p1 = probe_addr tag false a p in
    let p2 = probe_addr tag false b p1 in
    let (m1, at1, same1, _) = fails_line tag a p l h in
    let (m2, at2, same2, _) = fails_line tag b p1 m1 at1 in
    let (m3, at3, same3, dead) = fails_line tag c p2 m2 at2 in
    let third : 3 ≤ (stats_of tag p2).consecutive_fails + 1 =
      rw (fails_count tag b p1, fails_count tag a p) (omega arith) in
    (
      at3 ∙ ap (λ m. some m) (dead third ∙ same2 ∙ same1),
      line_of-change tag (up d) p.addresses l (λ _. refl) h,
      ap (λ s. s.consecutive_fails)
          (stats_of-insert tag (after_success d (stats_of tag p))
            (probe_addr tag true d p).addresses p),
    )
