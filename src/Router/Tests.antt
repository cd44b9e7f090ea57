-- ===== src/Router/Tests.antt =====
-- The theorems of the router on concrete rules. The addresses are numbers.
use oiwest_core.Common.{ℕ, ◌≡◌, ◌↔◌, true, [], ◌∷◌, ◌==◌, none, some}
use oiwest_core.Router.{Lib, Context, Compiled, match_rule, route, text_eq}
use oiwest_core.Router.Port.{port_value}
use oiwest_core.Router.Match.{Matches, match_rule_iff}
use oiwest_core.Router.First.{Chosen, route-Chosen}

abbrev lib : Lib
lib = record {
  Ip = ℕ;
  ip_equal = λ (m n : ℕ). m == n;
  parse_ip = λ s. some (port_value s 0);
  parse_cidr = λ s. none;
  compile = λ s. some (text_eq s);
  quote_meta = λ s. s;
  star_to_any = λ s. s;
}

abbrev rule : Compiled lib
rule = record {
  raw = record {
    inbound_tag = [];
    network = 116 ∷ 99 ∷ 112 ∷ [];
    protocol = [];
    user = [];
    port = 56 ∷ 48 ∷ 45 ∷ 57 ∷ 48 ∷ [];
    source_port = [];
    source = [];
    domain = [];
    ip = [];
    outbound_tag = 112 ∷ [];
    balancer_tag = [];
  };
  domain_regex = [];
  ip_nets = [];
}

abbrev connection : Context lib
connection = record {
  inbound_tag = [];
  network = 116 ∷ 99 ∷ 112 ∷ [];
  source_ip = none;
  target_ip = some 7;
  target_domain = [];
  port = 85;
  source_port = 1024;
  protocol = [];
  user = [];
}

match_rule_iff_example : (match_rule lib rule connection ≡ true) ↔ Matches lib rule connection
match_rule_iff_example = match_rule_iff lib rule connection

route-Chosen_example : Chosen lib [] connection (rule ∷ []) (route lib (rule ∷ []) [] connection)
route-Chosen_example = route-Chosen lib (rule ∷ []) [] connection
