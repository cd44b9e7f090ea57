-- ===== src/Bbr/Window.antt =====
-- The bounds of the window.
use oiwest_core.Common.{
  if_both, ◌≡◌, inl, inr, ◌⊎◌, Bool, false, ◌&&◌, ◌||◌, ltb, ◌-◌, ◌*◌, Bool-cases, bind_ok, subst,
}
use oiwest_core.Dccp.Congestion.{second}
use oiwest_core.Bbr.State.{
  Floats, Algorithm, original, v2, v3, plus_, ecn, adaptive, probe_rtt_, Config, Mode, startup,
  drain, probe_bw, probe_rtt, State,
}
use oiwest_core.Bbr.Update.{update_pacing_rate, update_cwnd, at_least_initial, bounded, window}
use oiwest_core.Bbr.Events.{
  measured, loss_factor, on_packet_sent, counted_loss, on_packet_lost, on_rtt_update,
}
use oiwest_core.Bbr.Modes.{
  measured-Kept, ok_inj, acked_parts, Step, sends, loses, acked, updated, Reach, here, later,
}

module _ (fl : Floats) where
  abbrev pub top : fl.F
  top = fl.hundredths 60000

  -- Of the order, that nothing is below itself; of math.Min, that it answers one of its arguments; and that
  -- the factors of a loss enlarge no window past the top.
  pub record IsLawful (config : Config fl) : Type 0 where
    pub irrefl : (x : fl.F) → fl.below x x ≡ false
    pub one_of : (x y : fl.F) → (fl.smaller x y ≡ x) ⊎ (fl.smaller x y ≡ y)
    pub by_alpha :
        (x : fl.F) → fl.below top x ≡ false → fl.below top (fl.times x config.alpha) ≡ false
    pub by_beta :
        (x : fl.F) → fl.below top x ≡ false → fl.below top (fl.times x config.beta) ≡ false
    pub by_eighty :
        (x : fl.F) → fl.below top x ≡ false → fl.below top (fl.times x (fl.hundredths 80)) ≡ false

  -- A window between the initial one and 600.
  abbrev pub IsWithin : fl.F → fl.F → Type 0
  IsWithin init cwnd = (fl.below cwnd init ≡ false) × (fl.below top cwnd ≡ false)

  -- What Reset and the start need as well: the initial window is not above the top.
  abbrev pub IsBounded : State fl → Type 0
  IsBounded s = (fl.below top s.init_cwnd ≡ false) × IsWithin s.init_cwnd s.cwnd

  module _ (config : Config fl) (laws : IsLawful config) where
    not_below : (init cwnd : fl.F) → fl.below (at_least_initial fl init cwnd) init ≡ false
    unfolding at_least_initial
    not_below init cwnd = elim (Bool-cases (fl.below cwnd init)) [
      | inl less_ ↦ rw less_ (laws.irrefl init)
      | inr more ↦ rw more more
    ]

    at_least_initial-IsWithin :
        (init cwnd : fl.F)
        → fl.below top init ≡ false
        → fl.below top cwnd ≡ false
        → IsWithin init (at_least_initial fl init cwnd)
    unfolding at_least_initial
    at_least_initial-IsWithin init cwnd h t =
        (not_below init cwnd, if_both (λ x. fl.below top x ≡ false) (fl.below cwnd init) h t)

    bounded-IsWithin :
        (init cwnd : fl.F) → fl.below top init ≡ false → IsWithin init (bounded fl init cwnd)
    unfolding bounded
    bounded-IsWithin init cwnd h =
        elim (Bool-cases (fl.below top (at_least_initial fl init cwnd))) [
          | inl more ↦ rw more (h, laws.irrefl top)
          | inr less_ ↦ rw less_ (not_below init cwnd, less_)
        ]

    window-IsWithin :
        (m : Mode) (s : State fl)
        → fl.below top s.init_cwnd ≡ false
        → IsWithin s.init_cwnd s.cwnd
        → IsWithin s.init_cwnd (window fl m s)
    unfolding window
    window-IsWithin probe_rtt s h w = elim (laws.one_of s.cwnd s.init_cwnd) [
      | inl e ↦ rw e w
      | inr e ↦ rw e (laws.irrefl s.init_cwnd, h)
    ]
    window-IsWithin startup s h w = bounded-IsWithin s.init_cwnd _ h
    window-IsWithin probe_bw s h w = bounded-IsWithin s.init_cwnd _ h
    window-IsWithin drain s h w = bounded-IsWithin s.init_cwnd _ h

    factor-below :
        (e : Bool) (s : State fl) (a : Algorithm) (x : fl.F)
        → fl.below top x ≡ false
        → fl.below top (fl.times x (loss_factor fl config e s a)) ≡ false
    unfolding loss_factor
    factor-below e s original x h = laws.by_eighty x h
    factor-below e s v2 x h =
        elim (Bool-cases (
          e
          && fl.below (fl.times s.ecn_threshold (fl.of_count s.packets_sent))
              (fl.of_count s.ecn_count))) [
                | inl more ↦ rw more (laws.by_alpha x h)
                | inr few ↦ rw few (laws.by_beta x h)
              ]
    factor-below e s v3 x h =
        elim (Bool-cases (
          e
          && fl.below (fl.times s.ecn_threshold (fl.of_count s.packets_sent))
              (fl.of_count s.ecn_count))) [
                | inl more ↦ rw more (laws.by_alpha x h)
                | inr few ↦ rw few (laws.by_beta x h)
              ]
    factor-below e s plus_ x h = laws.by_eighty x h
    factor-below e s ecn x h = laws.by_eighty x h
    factor-below e s adaptive x h = laws.by_eighty x h
    factor-below e s probe_rtt_ x h = laws.by_eighty x h

    transfer :
        (s s' : State fl)
        → s'.cwnd ≡ s.cwnd
        → s'.init_cwnd ≡ s.init_cwnd
        → IsBounded s
        → IsBounded s'
    transfer s s' w i (h, (low, high)) = rw (w, i) (h, (low, high))

    updated-IsBounded :
        (p : State fl) → IsBounded p → IsBounded (update_cwnd fl (update_pacing_rate fl p))
    unfolding update_cwnd update_pacing_rate
    updated-IsBounded p v =
        let rate = fl.times (fl.times p.bw p.pacing_gain) (fl.of_count p.mss) in
        let (h, w) =
          if_both IsBounded
            (fl.below (fl.hundredths 0) p.bw
              && fl.below (fl.hundredths 0) p.pacing_gain
              && (fl.below p.pacing_rate rate || fl.same p.pacing_rate (fl.hundredths 0)))
            {x = record p { pacing_rate = rate }} v v in
        (h, window-IsWithin (update_pacing_rate fl p).mode (update_pacing_rate fl p) h w)

    lost-IsBounded :
        (e : Bool) (s : State fl) → IsBounded s → IsBounded (on_packet_lost fl config e s)
    unfolding on_packet_lost counted_loss
    lost-IsBounded e s (h, (low, high)) = (
      h,
      at_least_initial-IsWithin s.init_cwnd _ h
          (factor-below e (counted_loss fl e s) s.algorithm s.cwnd high),
    )

    Step-IsBounded : {s s' : State fl} → Step fl config s s' → IsBounded s → IsBounded s'
    unfolding on_packet_sent on_rtt_update
    Step-IsBounded (sends size) b = b
    Step-IsBounded {s = s} (loses e) b = lost-IsBounded e s b
    Step-IsBounded {s = s} (acked now size rtt h) b =
        let (m, _, w, i, e) = acked_parts fl now size rtt s h in
        subst IsBounded e (updated-IsBounded m (transfer s m w i b))
    Step-IsBounded {s = s} {s' = s'} (updated now rtt h) b =
        let (s1, e1, h1) = bind_ok (measured fl rtt s) _ h in
        let (_, w, i) = measured-Kept fl rtt s e1 in
        let far = ltb 0 s1.min_rtt && ltb (10 * second) (now - s1.probe_rtt_done_at) in
        subst IsBounded (ok_inj h1)
          (if_both IsBounded far (transfer s s1 w i b) (transfer s s1 w i b))

    -- From a window between the initial one and 600 nothing that is sent, lost, acknowledged or measured leads
    -- to one outside.
    pub Reach-IsBounded : {s s' : State fl} → IsBounded s → Reach fl config s s' → IsBounded s'
    Reach-IsBounded v here = v
    Reach-IsBounded v (later r t) = Step-IsBounded t (Reach-IsBounded v r)
