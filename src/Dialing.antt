-- ===== src/Dialing.antt =====
-- app/common/net/dualstack.go. Tags and connections are numbers. What a dial answers is an argument, as is
-- the order in which the answers of parallel dials come.
pub mod First
pub mod Parallel
pub mod Probes
mod Tests
use oiwest_core.Common.{
  ◌^◌, ◌*◌, ℕ, zero, suc, ◌+◌, ◌==◌, Bool, true, false, not, ◌&&◌, ◌||◌, List, [], ◌∷◌, ◌++◌, ltb,
  leb, if◌then◌else◌, length, Option, none, some,
}
use oiwest_core.Mux.Assoc.{lookup, insert, erase}

-- An address, and whether To4 answers it.
pub record Ip : Type 0 where
  pub four : Bool
  pub number : ℕ

pub data Error : Type 0 where
  no_addresses : Error
  refused : ℕ → Error

-- A connection or an error.
pub data Answer : Type 0 where
  conn : ℕ → Answer
  failed : Error → Answer

-- IPPreference.
pub data Preference : Type 0 where
  prefer_ipv4 prefer_ipv6 prefer_dual ipv4_only ipv6_only : Preference

-- The split of DialIPContext by version.
unfoldable pub of_version : Bool → List Ip → List Ip
of_version v [] = []
of_version v (ip ∷ ips) =
    let rest = of_version v ips in if (if v then ip.four else not ip.four) then ip ∷ rest else rest

-- dialFirst: the loop, with the last error.
unfoldable pub dial_loop : (Ip → Answer) → Error → List Ip → Answer
dial_loop dial last [] = failed last
dial_loop dial last (ip ∷ ips) = elim (dial ip) [
  | conn c ↦ conn c
  | failed e ↦ dial_loop dial e ips
]

unfoldable pub dial_first : (Ip → Answer) → List Ip → Answer
unfolding dial_loop
dial_first dial ips = dial_loop dial no_addresses ips

-- The two lists in the order of a preference.
unfoldable pub prefer : (Ip → Answer) → Bool → List Ip → List Ip → Answer
prefer dial failover [] others = dial_first dial others
prefer dial failover (ip ∷ ips) others = elim (dial_first dial (ip ∷ ips)) [
  | conn c ↦ conn c
  | failed e ↦ if failover then dial_first dial others else failed e
]

-- DialIPContext; `parallel` is what dialParallel answers.
unfoldable pub dial_ip_context : (Ip → Answer) → Answer → Preference → Bool → List Ip → Answer
unfolding prefer of_version dial_first
dial_ip_context dial parallel ipv4_only failover ips = dial_first dial (of_version true ips)
dial_ip_context dial parallel ipv6_only failover ips = dial_first dial (of_version false ips)
dial_ip_context dial parallel prefer_ipv4 failover ips =
    prefer dial failover (of_version true ips) (of_version false ips)
dial_ip_context dial parallel prefer_ipv6 failover ips =
    prefer dial failover (of_version false ips) (of_version true ips)
dial_ip_context dial parallel prefer_dual failover ips = parallel

-- MultiLineAddr.
pub record Line : Type 0 where
  pub ip : Ip
  pub port : ℕ
  pub weight : ℕ
  pub latency : ℕ
  pub alive : Bool
  pub tag : ℕ

-- LineStats; an hour is so many nanoseconds.
pub record Stats : Type 0 where
  pub successes : ℕ
  pub failures : ℕ
  pub total_latency : ℕ
  pub last_latency : ℕ
  pub min_latency : ℕ
  pub max_latency : ℕ
  pub consecutive_fails : ℕ

abbrev pub hour : ℕ
hour = 3600 * 10 ^ 9

abbrev pub new_stats : Stats
new_stats = record {
  successes = 0;
  failures = 0;
  total_latency = 0;
  last_latency = 0;
  min_latency = hour;
  max_latency = 0;
  consecutive_fails = 0;
}

-- MultiLinePool.
pub record Pool : Type 0 where
  pub addresses : List Line
  pub stats : List (ℕ × Stats)

-- AddAddress on the pool of the version.
unfoldable pub add_address : Ip → ℕ → ℕ → ℕ → Pool → Pool
add_address ip port tag weight p = record {
  addresses =
      p.addresses
      ++ record { ip = ip; port = port; weight = weight; latency = 0; alive = true; tag = tag }
        ∷ [];
  stats = insert tag new_stats p.stats;
}

-- The first line of a tag, changed.
unfoldable pub change : ℕ → (Line → Line) → List Line → List Line
change tag f [] = []
change tag f (l ∷ ls) = let rest = change tag f ls in if l.tag == tag then f l ∷ ls else l ∷ rest

-- removeByTag.
unfoldable pub remove_by_tag : ℕ → List Line → List Line
remove_by_tag tag [] = []
remove_by_tag tag (l ∷ ls) =
    let rest = remove_by_tag tag ls in if l.tag == tag then ls else l ∷ rest

-- The statistics that a probe finds.
unfoldable pub stats_of : ℕ → Pool → Stats
stats_of tag p = elim (lookup tag p.stats) [ none ↦ new_stats | some s ↦ s ]

unfoldable pub after_failure : ℕ → Stats → Stats
after_failure latency s = record s {
  last_latency = latency;
  failures = s.failures + 1;
  consecutive_fails = s.consecutive_fails + 1;
}

unfoldable pub after_success : ℕ → Stats → Stats
after_success latency s = record s {
  last_latency = latency;
  successes = s.successes + 1;
  consecutive_fails = 0;
  total_latency = s.total_latency + latency;
  min_latency = if ltb latency s.min_latency then latency else s.min_latency;
  max_latency = if ltb s.max_latency latency then latency else s.max_latency;
}

-- probeAddr, with whether the dial succeeds and the time that it takes.
unfoldable pub probe_addr : ℕ → Bool → ℕ → Pool → Pool
unfolding change stats_of after_failure after_success
probe_addr tag true latency p = record {
  addresses = change tag (λ l. record l { alive = true; latency = latency }) p.addresses;
  stats = insert tag (after_success latency (stats_of tag p)) p.stats;
}
probe_addr tag false latency p =
    let s = after_failure latency (stats_of tag p) in
    record {
      addresses =
          if leb 3 s.consecutive_fails
          then change tag (λ l. record l { alive = false }) p.addresses
          else p.addresses;
      stats = insert tag s p.stats;
    }

-- How many dials dialParallel starts, and how many answers it waits for.
unfoldable pub alive_lines : List Line → ℕ
alive_lines [] = 0
alive_lines (l ∷ ls) = let rest = alive_lines ls in if l.alive then suc rest else rest

unfoldable pub launched : List Ip → List Ip → Pool → Pool → ℕ
unfolding alive_lines
launched ipv4 ipv6 pool4 pool6 =
    length ipv4 + length ipv6 + alive_lines pool4.addresses + alive_lines pool6.addresses

unfoldable pub awaited : List Ip → List Ip → Pool → Pool → ℕ
awaited ipv4 ipv6 pool4 pool6 =
    length pool4.addresses + length pool6.addresses + (length ipv4 + length ipv6)

-- What dialParallel comes to: `nothing` is no connection and no error, and `waiting` is a wait for an
-- answer, which the end of the context ends.
pub data Outcome : Type 0 where
  connected : ℕ → Outcome
  refused_all : Error → Outcome
  nothing waiting : Outcome

-- The loop over so many answers, with the first error. A connection ends it, since it cancels the
-- context.
unfoldable pub collect : ℕ → Option Error → List Answer → Outcome
collect zero none answers = nothing
collect zero (some e) answers = refused_all e
collect (suc n) first [] = waiting
collect (suc n) first (conn c ∷ answers) = connected c
collect (suc n) none (failed e ∷ answers) = collect n (some e) answers
collect (suc n) (some e) (failed _ ∷ answers) = collect n (some e) answers

-- RemoveAddress on a pool.
unfoldable pub remove_address : ℕ → Pool → Pool
unfolding remove_by_tag erase
remove_address tag p = record {
  addresses = remove_by_tag tag p.addresses;
  stats = erase tag p.stats;
}
