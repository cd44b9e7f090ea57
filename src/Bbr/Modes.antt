-- ===== src/Bbr/Modes.antt =====
-- The modes that a connection can be in.
use oiwest_core.Common.{
  if_both, ℕ, ◌≡◌, ◌≢◌, refl, sym, ap, subst, ◌∙◌, inl, inr, ◌⊎◌, Bool, true, false, ◌&&◌, leb, ◌+◌,
  ◌-◌, ◌*◌, ltb, if◌then◌else◌, Bool-cases, bind_ok, Result, ok, ◌>>◌, in_range, arith, length,
}
use oiwest_core.Dccp.Congestion.{word, second}
use oiwest_core.Bbr.State.{Floats, Config, Mode, startup, drain, probe_bw, probe_rtt, State}
use oiwest_core.Bbr.Update.{
  update_min_rtt_filter, update_bw_filter, advance, advance_mode, update_pacing_rate, update_cwnd,
}
use oiwest_core.Bbr.Events.{
  advance_startup, measured, rated, on_packet_sent, counted_loss, on_packet_lost, on_packet_acked,
  on_rtt_update,
}

-- A value behind a check of bounds.
pub in_range_ok :
    {A : Type 0} (b : Bool) {a a' : A}
    → (in_range {E = Unit {0}} b >> ok a) ≡ ok a'
    → (b ≡ true) × (a ≡ a')
in_range_ok true h = (refl, cc h)
in_range_ok false h = cc h

-- The branch that gave a value.
pub if_ok :
    {A : Type 0} (b : Bool) {x y : Result (Unit {0}) A} {a : A}
    → (if b then x else y) ≡ ok a
    → (x ≡ ok a) ⊎ (y ≡ ok a)
if_ok true h = inl h
if_ok false h = inr h

pub ok_inj : {A : Type 0} {a a' : A} → ◌≡◌ {A = Result (Unit {0}) A} (ok a) (ok a') → a ≡ a'
ok_inj h = cc h

module _ (fl : Floats) where
  -- The mode, the window and its least value are as they were.
  abbrev pub Kept : State fl → State fl → Type 0
  Kept s s' = (s'.mode ≡ s.mode) × (s'.cwnd ≡ s.cwnd) × (s'.init_cwnd ≡ s.init_cwnd)

  of_path : {s s' : State fl} → s ≡ s' → Kept s s'
  of_path e = (ap (λ r. r.mode) (sym e), ap (λ r. r.cwnd) (sym e), ap (λ r. r.init_cwnd) (sym e))

  pub measured-Kept :
      (rtt : ℕ) (s : State fl) {s' : State fl} → measured fl rtt s ≡ ok s' → Kept s s'
  unfolding measured update_min_rtt_filter
  measured-Kept rtt s {s'} h =
      let (m, w, i) = of_path (in_range_ok (ltb s.min_rtt_idx (length s.min_rtt_filter)) h).1 in
      (m, w, i)

  pub rated-Kept :
      (size rtt : ℕ) (s : State fl) {s' : State fl} → rated fl size rtt s ≡ ok s' → Kept s s'
  unfolding rated update_bw_filter
  rated-Kept size rtt s h =
      let rate = fl.over (fl.of_count size) (fl.seconds rtt) in
      elim (if_ok (ltb 0 size && fl.below (fl.hundredths 0) rate) h) [
        | inl h' ↦
            let (m, w, i) = of_path (in_range_ok (ltb s.bw_filter_idx (length s.bw_filter)) h').1 in
            (m, w, i)
        | inr h' ↦ of_path (ok_inj h')
      ]

  -- A call of advanceMode in ModeStartup: it stays or drains, and the window is as it was.
  abbrev pub Started : State fl → State fl → Type 0
  Started s s' =
      ((s'.mode ≡ startup) ⊎ (s'.mode ≡ drain)) × (s'.cwnd ≡ s.cwnd) × (s'.init_cwnd ≡ s.init_cwnd)

  advance-Started :
      (now : ℕ) (s : State fl) {s' : State fl}
      → s.mode ≡ startup
      → advance fl now startup s ≡ ok s'
      → Started s s'
  unfolding advance
  advance-Started now s e h = subst (Started s) (ok_inj h) (
      if_both (Started s) (fl.same s.bw_max s.bw_latest && s.full_bw)
        (if_both (Started s) (leb 3 (word (s.full_bw_count + 1))) (inr refl, refl, refl)
          (inl e, refl, refl))
        (inl e, refl, refl))

  advance_startup-mode :
      (now : ℕ) (m : Mode) (s : State fl) {s' : State fl}
      → s.mode ≡ m
      → advance_startup fl now m s ≡ ok s'
      → (s'.mode ≡ m) ⊎ ((m ≡ startup) × (s'.mode ≡ drain))
  unfolding advance_startup advance_mode
  advance_startup-mode now startup s e h =
      let (m, _, _) = advance-Started now s e (sym (ap (λ m'. advance fl now m' s) e) ∙ h) in
      elim m [ inl still ↦ inl still | inr drained ↦ inr (refl, drained) ]
  advance_startup-mode now drain s e h = inl (ap (λ r. r.mode) (sym (ok_inj h)) ∙ e)
  advance_startup-mode now probe_bw s e h = inl (ap (λ r. r.mode) (sym (ok_inj h)) ∙ e)
  advance_startup-mode now probe_rtt s e h = inl (ap (λ r. r.mode) (sym (ok_inj h)) ∙ e)

  advance_startup-window :
      (now : ℕ) (m : Mode) (s : State fl) {s' : State fl}
      → s.mode ≡ m
      → advance_startup fl now m s ≡ ok s'
      → (s'.cwnd ≡ s.cwnd) × (s'.init_cwnd ≡ s.init_cwnd)
  unfolding advance_startup advance_mode
  advance_startup-window now startup s e h =
      let (_, w, i) = advance-Started now s e (sym (ap (λ m'. advance fl now m' s) e) ∙ h) in (w, i)
  advance_startup-window now drain s e h = let (m, w, i) = of_path (ok_inj h) in (w, i)
  advance_startup-window now probe_bw s e h = let (m, w, i) = of_path (ok_inj h) in (w, i)
  advance_startup-window now probe_rtt s e h = let (m, w, i) = of_path (ok_inj h) in (w, i)

  update-mode : (s : State fl) → (update_cwnd fl (update_pacing_rate fl s)).mode ≡ s.mode
  unfolding update_cwnd update_pacing_rate
  update-mode s = ground arith

  -- The state that an acknowledgement leaves before the last two updates: its mode, and the window as it was.
  pub acked_parts :
      (now size rtt : ℕ) (s : State fl) {s' : State fl}
      → on_packet_acked fl now size rtt s ≡ ok s'
      → (p : State fl) × ((p.mode ≡ s.mode) ⊎ ((s.mode ≡ startup) × (p.mode ≡ drain)))
        × (p.cwnd ≡ s.cwnd)
        × (p.init_cwnd ≡ s.init_cwnd)
        × (update_cwnd fl (update_pacing_rate fl p) ≡ s')
  unfolding on_packet_acked
  acked_parts now size rtt s {s'} h =
      let p : State fl = record s {
        packets_acked = word (s.packets_acked + 1);
        bytes_acked = word (s.bytes_acked + size);
        inflight = s.inflight - 1;
      } in
      let (s1, e1, h1) = bind_ok (measured fl rtt p) _ h in
      let (s2, e2, h2) = bind_ok (rated fl size rtt s1) _ h1 in
      let (s3, e3, h3) = bind_ok (advance_startup fl now s2.mode s2) _ h2 in
      let (m1, w1, i1) = measured-Kept rtt p e1 in
      let (m2, w2, i2) = rated-Kept size rtt s1 e2 in
      let (w3, i3) = advance_startup-window now s2.mode s2 refl e3 in
      (
        s3,
        elim (advance_startup-mode now s2.mode s2 refl e3) [
          | inl same_ ↦ inl (same_ ∙ m2 ∙ m1)
          | inr (up, drained) ↦ inr (sym m1 ∙ sym m2 ∙ up, drained)
        ],
        w3 ∙ w2 ∙ w1,
        i3 ∙ i2 ∙ i1,
        ok_inj h3,
      )

  acked-mode :
      (now size rtt : ℕ) (s : State fl) {s' : State fl}
      → on_packet_acked fl now size rtt s ≡ ok s'
      → (s'.mode ≡ s.mode) ⊎ ((s.mode ≡ startup) × (s'.mode ≡ drain))
  acked-mode now size rtt s {s'} h =
      let (p, m, _, _, e) = acked_parts now size rtt s h in
      let last : s'.mode ≡ p.mode = ap (λ r. r.mode) (sym e) ∙ update-mode p in
      elim m [ inl still ↦ inl (last ∙ still) | inr (up, drained) ↦ inr (up, last ∙ drained) ]

  updated-mode :
      (now rtt : ℕ) (s : State fl) {s' : State fl}
      → on_rtt_update fl now rtt s ≡ ok s'
      → (s'.mode ≡ s.mode) ⊎ (s'.mode ≡ probe_rtt)
  unfolding on_rtt_update
  updated-mode now rtt s {s'} h =
      let (s1, e1, h1) = bind_ok (measured fl rtt s) _ h in
      elim (Bool-cases (ltb 0 s1.min_rtt && ltb (10 * second) (now - s1.probe_rtt_done_at))) [
        | inl far ↦ inr (ap (λ r. r.mode) (sym (ok_inj (rw far at h1))))
        | inr near ↦
            inl (ap (λ r. r.mode) (sym (ok_inj (rw near at h1))) ∙ (measured-Kept rtt s e1).0)
      ]

  -- What can happen to a connection between two resets.
  pub data Step (config : Config fl) (s : State fl) : State fl → Type 0 where
    sends : (size : ℕ) → Step config s (on_packet_sent fl size s)
    loses : (ecn_ : Bool) → Step config s (on_packet_lost fl config ecn_ s)
    acked :
        {s' : State fl} (now size rtt : ℕ)
        → on_packet_acked fl now size rtt s ≡ ok s'
        → Step config s s'
    updated : {s' : State fl} (now rtt : ℕ) → on_rtt_update fl now rtt s ≡ ok s' → Step config s s'

  pub data Reach (config : Config fl) (s : State fl) : State fl → Type 0 where
    here : Reach config s s
    later : {p q : State fl} → Reach config s p → Step config p q → Reach config s q

  Step-mode :
      {config : Config fl} {s s' : State fl}
      → Step config s s'
      → (s'.mode ≡ s.mode) ⊎ ((s.mode ≡ startup) × (s'.mode ≡ drain)) ⊎ (s'.mode ≡ probe_rtt)
  unfolding on_packet_sent on_packet_lost counted_loss
  Step-mode (sends size) = inl refl
  Step-mode (loses ecn_) = inl refl
  Step-mode {s = s} (acked now size rtt h) = elim (acked-mode now size rtt s h) [
    | inl e ↦ inl e
    | inr e ↦ inr (inl e)
  ]
  Step-mode {s = s} (updated now rtt h) = elim (updated-mode now rtt s h) [
    | inl e ↦ inl e
    | inr e ↦ inr (inr e)
  ]

  -- A connection that is not in ModeProbeBW never comes to it, and one in ModeProbeRTT stays there, whatever is
  -- sent, lost, acknowledged or measured, until Reset.
  pub Reach-mode :
      {config : Config fl} {s s' : State fl}
      → s.mode ≢ probe_bw
      → Reach config s s'
      → (s'.mode ≢ probe_bw) × (s.mode ≡ probe_rtt → s'.mode ≡ probe_rtt)
  Reach-mode early here = (early, λ e. e)
  Reach-mode {s = s} early (later {p = p} {q = q} r t) =
      let (before, stays) = Reach-mode early r in
      elim (Step-mode t) [
        | inl e ↦ (λ h. before (sym e ∙ h), λ h. e ∙ stays h)
        | inr (inl (up, e)) ↦ (λ h. cc (h, e), λ h. cc (stays h, up))
        | inr (inr e) ↦ (λ h. cc (h, e), λ h. e)
      ]
