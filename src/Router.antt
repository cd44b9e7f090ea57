-- ===== src/Router.antt =====
-- The routing engine of app/route/router.go. A text is the list of its bytes. Regular expressions,
-- addresses and networks are Go's: they come as the parameters `Lib`.
pub mod Port
pub mod Match
pub mod First
mod Tests
use oiwest_core.Common.{
  ℕ, zero, suc, ◌+◌, ◌-◌, ◌*◌, ◌%◌, ◌^◌, Bool, true, false, not, ◌&&◌, ◌||◌, List, [], ◌∷◌, ◌++◌,
  ltb, leb, ◌==◌, if◌then◌else◌, length, drop, map, Option, none, some,
}

abbrev pub Text : Type 0
Text = List ℕ

unfoldable pub text_eq : Text → Text → Bool
text_eq [] [] = true
text_eq [] (y ∷ ys) = false
text_eq (x ∷ xs) [] = false
text_eq (x ∷ xs) (y ∷ ys) = x == y && text_eq xs ys

abbrev pub is_nil {ℓ} : {A : Type ℓ} → List A → Bool
is_nil [] = true
is_nil (x ∷ xs) = false

-- `for … { if test { found = true; break } }`.
unfoldable pub any {ℓ} : {A : Type ℓ} → (A → Bool) → List A → Bool
any p [] = false
any p (x ∷ xs) = p x || any p xs

-- containsString.
unfoldable pub contains_string : List Text → Text → Bool
unfolding any text_eq
contains_string haystack needle = any (λ s. text_eq s needle) haystack

-- What the router takes from regexp, net and strings: compiled expressions and parsed networks as
-- their tests, addresses and their equality.
pub record Lib : Type 1 where
  pub Ip : Type 0
  pub ip_equal : Ip → Ip → Bool
  pub parse_ip : Text → Option Ip
  pub parse_cidr : Text → Option (Ip → Bool)
  pub compile : Text → Option (Text → Bool)
  pub quote_meta : Text → Text
  pub star_to_any : Text → Text

abbrev pub has_prefix : Text → Text → Bool
has_prefix [] s = true
has_prefix (p ∷ ps) [] = false
has_prefix (p ∷ ps) (c ∷ s) = p == c && has_prefix ps s

-- parsePort: the digits of a text as a uint16 that wraps; other characters are skipped.
pub port_step : ℕ → ℕ → ℕ
port_step port c = if leb 48 c && leb c 57 then (port * 10 + (c - 48)) % 2 ^ 16 else port

pub port_loop : Text → ℕ → ℕ
port_loop [] port = port
port_loop (c ∷ s) port = port_loop s (port_step port c)

pub parse_port : Text → ℕ
parse_port s = port_loop s 0

-- strings.TrimSpace on ASCII white space, and strings.Split at a dash.
abbrev pub is_space : ℕ → Bool
is_space c = c == 32 || (leb 9 c && leb c 13)

pub trim_left : Text → Text
trim_left [] = []
trim_left (c ∷ s) = if is_space c then trim_left s else c ∷ s

pub trim_right : Text → Text
trim_right [] = []
trim_right (c ∷ s) = let rest = trim_right s in if is_space c && is_nil rest then [] else c ∷ rest

abbrev pub cons_head : ℕ → List Text → List Text
cons_head c [] = (c ∷ []) ∷ []
cons_head c (p ∷ ps) = (c ∷ p) ∷ ps

pub split_dash : Text → List Text
split_dash [] = [] ∷ []
split_dash (c ∷ s) = let rest = split_dash s in if c == 45 then [] ∷ rest else cons_head c rest

abbrev pub port_in : List Text → Text → ℕ → Bool
port_in (from ∷ to ∷ []) whole port = leb (parse_port from) port && leb port (parse_port to)
port_in _ whole port = port == parse_port whole

-- matchPort.
pub match_port : Text → ℕ → Bool
match_port rule port =
    let s = trim_right (trim_left rule) in if is_nil s then true else port_in (split_dash s) s port

-- RoutingRule of the configuration, as far as the router reads it.
pub record Rule : Type 0 where
  pub inbound_tag : List Text
  pub network : Text
  pub protocol : List Text
  pub user : List Text
  pub port : Text
  pub source_port : Text
  pub source : List Text
  pub domain : List Text
  pub ip : List Text
  pub outbound_tag : Text
  pub balancer_tag : Text

pub record Balancer : Type 0 where
  pub tag : Text
  pub selector : List Text

-- selectBalancer: "direct" where no balancer of the tag has a selector.
abbrev pub direct : Text
direct = 100 ∷ 105 ∷ 114 ∷ 101 ∷ 99 ∷ 116 ∷ []

abbrev pub pick : List Text → Text → Text
pick [] other = other
pick (first ∷ rest) other = first

abbrev pub select_balancer : List Balancer → Text → Text
select_balancer [] tag = direct
select_balancer (b ∷ bs) tag =
    let rest = select_balancer bs tag in if text_eq b.tag tag then pick b.selector rest else rest

-- convertDomainToRegex.
abbrev pub domain_prefix : Text
domain_prefix = 100 ∷ 111 ∷ 109 ∷ 97 ∷ 105 ∷ 110 ∷ 58 ∷ []

abbrev pub full_prefix : Text
full_prefix = 102 ∷ 117 ∷ 108 ∷ 108 ∷ 58 ∷ []

abbrev pub keyword_prefix : Text
keyword_prefix = 107 ∷ 101 ∷ 121 ∷ 119 ∷ 111 ∷ 114 ∷ 100 ∷ 58 ∷ []

abbrev pub regexp_prefix : Text
regexp_prefix = 114 ∷ 101 ∷ 103 ∷ 101 ∷ 120 ∷ 112 ∷ 58 ∷ []

-- "^" and "$" round an expression.
abbrev pub anchored : Text → Text
anchored e = 94 ∷ (e ++ 36 ∷ [])

-- The expressions and networks that a rule names, those that do not parse left out.
pub keep_some {ℓ κ} : {A : Type ℓ} {B : Type κ} → (A → Option B) → List A → List B
keep_some f [] = []
keep_some f (x ∷ xs) = let rest = keep_some f xs in elim (f x) [ none ↦ rest | some y ↦ y ∷ rest ]

module _ (lib : Lib) where
  open lib use {Ip, ip_equal, parse_ip, parse_cidr, compile, quote_meta, star_to_any}

  -- RoutingContext.
  pub record Context : Type 0 where
    pub inbound_tag : Text
    pub network : Text
    pub source_ip : Option Ip
    pub target_ip : Option Ip
    pub target_domain : Text
    pub port : ℕ
    pub source_port : ℕ
    pub protocol : Text
    pub user : Text

  -- CompiledRule: the tests of its expressions and networks.
  pub record Compiled : Type 0 where
    pub raw : Rule
    pub domain_regex : List (Text → Bool)
    pub ip_nets : List (Ip → Bool)

  abbrev pub convert_domain : Text → Text
  convert_domain domain =
      let d = if has_prefix domain_prefix domain then drop 7 domain else domain in
      if has_prefix full_prefix d
      then anchored (quote_meta (drop 5 d))
      else if has_prefix keyword_prefix d
      then quote_meta (drop 8 d)
      else anchored (star_to_any (quote_meta d))

  abbrev pub compile_domain : Text → Option (Text → Bool)
  compile_domain d =
      if has_prefix regexp_prefix d then compile (drop 7 d) else compile (convert_domain d)

  -- A network, or an address as the network of itself alone.
  abbrev pub only : Option Ip → Option (Ip → Bool)
  only none = none
  only (some ip) = some (λ other. ip_equal ip other)

  abbrev pub compile_ip : Text → Option (Ip → Bool)
  compile_ip s = if any (λ c. c == 47) s then parse_cidr s else only (parse_ip s)

  -- One round of compileRules.
  abbrev pub compile_rule : Rule → Compiled
  compile_rule r = record {
    raw = r;
    domain_regex = keep_some compile_domain r.domain;
    ip_nets = keep_some compile_ip r.ip;
  }

  -- matchIP.
  abbrev pub holds_for : Ip → Option (Ip → Bool) → Bool
  holds_for ip none = false
  holds_for ip (some net) = net ip

  abbrev pub equals : Ip → Option Ip → Bool
  equals ip none = false
  equals ip (some other) = ip_equal ip other

  abbrev pub match_ip : Ip → Text → Bool
  match_ip ip pattern =
      if any (λ c. c == 47) pattern
      then holds_for ip (parse_cidr pattern)
      else equals ip (parse_ip pattern)

  -- A test of the source address; one that the context does not know passes.
  abbrev pub source_passes : List Text → Option Ip → Bool
  source_passes patterns none = true
  source_passes patterns (some ip) = any (match_ip ip) patterns

  -- `domainMatched` and `ipMatched` of matchRule: whether the loop is entered and finds a match.
  abbrev pub domain_matched : Compiled → Context → Bool
  domain_matched rule rc =
      not (is_nil rule.raw.domain)
      && not (is_nil rc.target_domain)
      && any (λ re. re rc.target_domain) rule.domain_regex

  abbrev pub any_net : List (Ip → Bool) → Option Ip → Bool
  any_net nets none = false
  any_net nets (some ip) = any (λ net. net ip) nets

  abbrev pub ip_matched : Compiled → Context → Bool
  ip_matched rule rc = not (is_nil rule.raw.ip) && any_net rule.ip_nets rc.target_ip

  abbrev pub is_known : Option Ip → Bool
  is_known none = false
  is_known (some ip) = true

  -- The end of matchRule, behind its first seven tests.
  pub match_target : Compiled → Context → Bool
  match_target rule rc =
      if (not (is_nil rule.raw.domain) && not (is_nil rc.target_domain))
        && not (domain_matched rule rc)
      then false
      else if (not (is_nil rule.raw.ip) && is_known rc.target_ip) && not (ip_matched rule rc)
      then false
      else if not (is_nil rule.raw.domain) || not (is_nil rule.raw.ip)
      then if not (is_nil rc.target_domain) && domain_matched rule rc
        then true
        else if is_known rc.target_ip && ip_matched rule rc
        then true
        else if not (domain_matched rule rc) && not (ip_matched rule rc)
        then false
        else true
      else true

  -- matchRule.
  pub match_rule : Compiled → Context → Bool
  match_rule rule rc =
      let raw = rule.raw in
      if not (is_nil raw.inbound_tag) && not (contains_string raw.inbound_tag rc.inbound_tag)
      then false
      else if not (is_nil raw.network) && not (text_eq raw.network rc.network)
      then false
      else if not (is_nil raw.protocol) && not (contains_string raw.protocol rc.protocol)
      then false
      else if not (is_nil raw.user) && not (contains_string raw.user rc.user)
      then false
      else if not (is_nil raw.port) && not (match_port raw.port rc.port)
      then false
      else if not (is_nil raw.source_port) && not (match_port raw.source_port rc.source_port)
      then false
      else if not (is_nil raw.source) && not (source_passes raw.source rc.source_ip)
      then false
      else match_target rule rc

  -- Route: the first rule that matches and names an outbound or a balancer, then the first
  -- balancer; `none` is ErrNoRoute.
  abbrev pub fallback : List Balancer → List Balancer → Option Text
  fallback all [] = none
  fallback all (b ∷ bs) = some (select_balancer all b.tag)

  pub route : List Compiled → List Balancer → Context → Option Text
  route [] balancers rc = fallback balancers balancers
  route (rule ∷ rules) balancers rc =
      let rest = route rules balancers rc in
      if match_rule rule rc
      then if not (is_nil rule.raw.outbound_tag)
        then some rule.raw.outbound_tag
        else if not (is_nil rule.raw.balancer_tag)
        then some (select_balancer balancers rule.raw.balancer_tag)
        else rest
      else rest

  -- compileRules.
  abbrev pub compile_rules : List Rule → List Compiled
  compile_rules rules = map compile_rule rules

  -- Router: the configuration's balancers, and the compiled rules. NewRouter and ReloadConfig make
  -- the rules anew.
  pub record Router : Type 0 where
    pub balancers : List Balancer
    pub rules : List Compiled

  abbrev pub new_router : List Rule → List Balancer → Router
  new_router rules balancers = record { balancers = balancers; rules = compile_rules rules }

  abbrev pub reload_config : List Rule → List Balancer → Router → Router
  reload_config rules balancers r = record r { balancers = balancers; rules = compile_rules rules }
