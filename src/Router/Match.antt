-- ===== src/Router/Match.antt =====
-- When a rule matches a connection.
use oiwest_core.Common.{
  ◌≡◌, ◌↔◌, ◌⊎◌, refl, inl, inr, Bool, true, false, not, ◌&&◌, ◌||◌, if◌then◌else◌, arith,
}
use oiwest_core.Router.{
  Lib, Context, Compiled, is_nil, contains_string, text_eq, match_port, source_passes,
  domain_matched, ip_matched, is_known, match_target, match_rule,
}

-- An empty condition asks for nothing.
abbrev pub Asks : Bool → Bool → Type 0
Asks empty test = (empty ≡ true) ⊎ (test ≡ true)

-- One early return of matchRule.
guard_sound :
    (empty test rest : Bool)
    → (if not empty && not test then false else rest) ≡ true
    → Asks empty test × (rest ≡ true)
guard_sound true test rest e = (inl refl, e)
guard_sound false true rest e = (inr refl, e)
guard_sound false false rest e = ground arith

guard_complete :
    (empty test rest : Bool)
    → Asks empty test
    → rest ≡ true
    → (if not empty && not test then false else rest) ≡ true
guard_complete true test rest a e = e
guard_complete false true rest a e = e
guard_complete false false rest a e = ground arith

module _ (lib : Lib) where
  -- The conditions of a rule, all of which must hold, and of the domains and the addresses, if the
  -- rule has any, those that the connection knows and at least one.
  pub record Matches (rule : Compiled lib) (rc : Context lib) : Type 0 where
    pub inbound :
        Asks (is_nil rule.raw.inbound_tag) (contains_string rule.raw.inbound_tag rc.inbound_tag)
    pub network : Asks (is_nil rule.raw.network) (text_eq rule.raw.network rc.network)
    pub protocol : Asks (is_nil rule.raw.protocol) (contains_string rule.raw.protocol rc.protocol)
    pub user : Asks (is_nil rule.raw.user) (contains_string rule.raw.user rc.user)
    pub port : Asks (is_nil rule.raw.port) (match_port rule.raw.port rc.port)
    pub source_port :
        Asks (is_nil rule.raw.source_port) (match_port rule.raw.source_port rc.source_port)
    pub source : Asks (is_nil rule.raw.source) (source_passes lib rule.raw.source rc.source_ip)
    pub domain :
        Asks (is_nil rule.raw.domain || is_nil rc.target_domain) (domain_matched lib rule rc)
    pub ip : Asks (is_nil rule.raw.ip || not (is_known lib rc.target_ip)) (ip_matched lib rule rc)
    pub one :
        Asks
          (is_nil rule.raw.domain && is_nil rule.raw.ip)
          (domain_matched lib rule rc || ip_matched lib rule rc)

  match_target_sound :
      (rule : Compiled lib) (rc : Context lib)
      → match_target lib rule rc ≡ true
      → Asks (is_nil rule.raw.domain || is_nil rc.target_domain) (domain_matched lib rule rc)
        × Asks (is_nil rule.raw.ip || not (is_known lib rc.target_ip)) (ip_matched lib rule rc)
        × Asks
            (is_nil rule.raw.domain && is_nil rule.raw.ip)
            (domain_matched lib rule rc || ip_matched lib rule rc)
  unfolding match_target
  match_target_sound rule rc e = ground arith

  match_target_complete :
      (rule : Compiled lib) (rc : Context lib)
      → Asks (is_nil rule.raw.domain || is_nil rc.target_domain) (domain_matched lib rule rc)
      → Asks (is_nil rule.raw.ip || not (is_known lib rc.target_ip)) (ip_matched lib rule rc)
      → Asks
          (is_nil rule.raw.domain && is_nil rule.raw.ip)
          (domain_matched lib rule rc || ip_matched lib rule rc)
      → match_target lib rule rc ≡ true
  unfolding match_target
  match_target_complete rule rc d i o = ground arith

  -- matchRule answers true exactly on the connections that meet all conditions of the rule.
  pub match_rule_iff :
      (rule : Compiled lib) (rc : Context lib) → (match_rule lib rule rc ≡ true) ↔ Matches rule rc
  unfolding match_rule
  match_rule_iff rule rc = (
    λ e.
        let g1 = guard_sound _ _ _ e in
        let g2 = guard_sound _ _ _ (g1.1) in
        let g3 = guard_sound _ _ _ (g2.1) in
        let g4 = guard_sound _ _ _ (g3.1) in
        let g5 = guard_sound _ _ _ (g4.1) in
        let g6 = guard_sound _ _ _ (g5.1) in
        let g7 = guard_sound _ _ _ (g6.1) in
        let (d, i, o) = match_target_sound rule rc (g7.1) in
        record {
          inbound = g1.0;
          network = g2.0;
          protocol = g3.0;
          user = g4.0;
          port = g5.0;
          source_port = g6.0;
          source = g7.0;
          domain = d;
          ip = i;
          one = o;
        },
    λ m. guard_complete _ _ _ m.inbound (
        guard_complete _ _ _ m.network (
          guard_complete _ _ _ m.protocol (
            guard_complete _ _ _ m.user (
              guard_complete _ _ _ m.port (
                guard_complete _ _ _ m.source_port (
                  guard_complete _ _ _ m.source
                    (match_target_complete rule rc m.domain m.ip m.one))))))),
  )
