-- ===== src/Proxy/Manager.antt =====
-- The manager of app/proxy/proxy.go: its tables, the choice of an outbound, and the accept loop of an inbound. A
-- handler is a number.
use oiwest_core.Common.{
  ℕ, ◌+◌, ◌-◌, ◌≤◌, ◌<◌, ◌≡◌, ap, ◌∙◌, true, false, List, [], ◌∷◌, ◌++◌, ltb, if◌then◌else◌,
  if_true, if_false, Option, none, some, Result, ok, err, All, arith,
}
use oiwest_core.Router.{Text, Rule, text_eq, is_nil, direct}

pub data Error : Type 0 where
  proxy_not_found inbound_not_found : Error

-- A map with tags for keys.
abbrev pub Tagged : Type 0
Tagged = List (Text × ℕ)

unfoldable pub find_tag : Text → Tagged → Option ℕ
find_tag tag [] = none
find_tag tag ((t, h) ∷ table) =
    let rest = find_tag tag table in if text_eq t tag then some h else rest

-- An assignment: an entry of the same tag is no longer found.
unfoldable pub put_tag : Text → ℕ → Tagged → Tagged
put_tag tag h table = (tag, h) ∷ table

-- ProxyManager: the tags of the configured outbounds in order, and its rules, if it has a routing.
pub record Manager : Type 0 where
  pub inbounds : Tagged
  pub outbounds : Tagged
  pub configured : List Text
  pub rules : List Rule

-- NewProxyManager.
unfoldable pub new_manager : List Text → List Rule → Manager
new_manager configured rules = record {
  inbounds = [];
  outbounds = [];
  configured = configured;
  rules = rules;
}

-- RegisterInbound and RegisterOutbound, with the tag of the handler.
unfoldable pub register_inbound : Text → ℕ → Manager → Manager
unfolding put_tag
register_inbound tag h m = record m { inbounds = put_tag tag h m.inbounds }

unfoldable pub register_outbound : Text → ℕ → Manager → Manager
unfolding put_tag
register_outbound tag h m = record m { outbounds = put_tag tag h m.outbounds }

-- GetInbound and GetOutbound.
unfoldable pub get_inbound : Text → Manager → Result Error ℕ
unfolding find_tag
get_inbound tag m = elim (find_tag tag m.inbounds) [ none ↦ err inbound_not_found | some h ↦ ok h ]

unfoldable pub get_outbound : Text → Manager → Result Error ℕ
unfolding find_tag
get_outbound tag m = elim (find_tag tag m.outbounds) [ none ↦ err proxy_not_found | some h ↦ ok h ]

-- The loop of dispatchRequest over the rules, with the tag so far.
unfoldable pub first_tagged : Text → List Rule → Text
first_tagged tag [] = tag
first_tagged tag (r ∷ rules) =
    let rest = first_tagged tag rules in if is_nil r.outbound_tag then rest else r.outbound_tag

-- The tag and the handler that dispatchRequest takes; none drops the connection.
unfoldable pub outbound_tag : Manager → Text
unfolding first_tagged
outbound_tag m = first_tagged (elim m.configured [ [] ↦ direct | t ∷ ts ↦ t ]) m.rules

unfoldable pub dispatch_request : Manager → Option ℕ
unfolding outbound_tag find_tag
dispatch_request m = find_tag (outbound_tag m) m.outbounds

-- MaxConnsPerInbound.
abbrev pub max_conns_per_inbound : ℕ
max_conns_per_inbound = 4096

-- The semaphore of an inbound, and the connections that were closed at once.
pub record Serving : Type 0 where
  pub active : ℕ
  pub rejected : ℕ

-- A round of the loop of startInbound with a connection, and the end of a handler.
unfoldable pub accept : Serving → Serving
accept s =
    if ltb s.active max_conns_per_inbound
    then record s { active = s.active + 1 }
    else record s { rejected = s.rejected + 1 }

unfoldable pub release : Serving → Serving
release s = record s { active = s.active - 1 }

pub data Step (s : Serving) : Serving → Type 0 where
  accepts : Step s (accept s)
  releases : 0 < s.active → Step s (release s)

pub data Reach (s : Serving) : Serving → Type 0 where
  here : Reach s s
  later : {p q : Serving} → Reach s p → Step p q → Reach s q

Step-active :
    {p q : Serving} → Step p q → p.active ≤ max_conns_per_inbound → q.active ≤ max_conns_per_inbound
unfolding accept release
Step-active {p = p} accepts h = ground arith
Step-active {p = p} (releases some_) h = omega arith

-- However connections come and handlers end, an inbound never serves more than 4096 at once.
pub Reach-active :
    {p q : Serving}
    → p.active ≤ max_conns_per_inbound
    → Reach p q
    → q.active ≤ max_conns_per_inbound
Reach-active h here = h
Reach-active h (later r t) = Step-active t (Reach-active h r)

-- dispatchRequest takes the tag of the first rule that names an outbound, whatever the conditions of the rules
-- are.
pub outbound_tag_lem :
    (m : Manager) (before after : List Rule) (r : Rule)
    → m.rules ≡ before ++ (r ∷ after)
    → All (λ (b : Rule). is_nil b.outbound_tag ≡ true) before
    → is_nil r.outbound_tag ≡ false
    → outbound_tag m ≡ r.outbound_tag
unfolding outbound_tag
outbound_tag_lem m before after r split none_ named =
    ap (first_tagged (elim m.configured [ [] ↦ direct | t ∷ ts ↦ t ])) split ∙ found before none_
  where
    found :
        (bs : List Rule)
        → All (λ (b : Rule). is_nil b.outbound_tag ≡ true) bs
        → first_tagged (elim m.configured [ [] ↦ direct | t ∷ ts ↦ t ]) (bs ++ (r ∷ after))
          ≡ r.outbound_tag
    found [] v = if_false _ named
    found (b ∷ bs) (e, v) = if_true _ e ∙ found bs v
