-- ===== src/Dialing/Tests.antt =====
-- The theorems of the dialer on concrete addresses and lines.
use oiwest_core.Common.{
  ℕ, ◌≡◌, ◌⊎◌, inl, refl, true, false, List, [], ◌∷◌, none, some, length, All, arith,
}
use oiwest_core.Dialing.{
  Ip, refused, Answer, failed, Line, Pool, alive_lines, launched, awaited, collect, connected,
  waiting,
}
use oiwest_core.Dialing.Parallel.{IsRefusal, FirstConn, HasDead, collect_lem}
use oiwest_core.Dialing.Probes.{line_of}

abbrev hosts : List Ip
hosts = record { four = true; number = 1 } ∷ record { four = false; number = 2 } ∷ []

abbrev refuse : Ip → Answer
refuse ip = failed (refused ip.number)

abbrev line : Line
line = record {
  ip = record { four = true; number = 1 };
  port = 443;
  weight = 1;
  latency = 0;
  alive = false;
  tag = 5;
}

abbrev dead : Pool
dead = record { addresses = line ∷ []; stats = [] }

abbrev empty : Pool
empty = record { addresses = []; stats = [] }

abbrev answers : List Answer
answers = failed (refused 1) ∷ failed (refused 2) ∷ []

all_answered : length answers ≡ launched hosts [] dead empty
unfolding launched
all_answered = refl

has_dead : HasDead dead
unfolding alive_lines
has_dead = omega arith

collect_lem_example :
    ((c : ℕ) × FirstConn answers c
      × (collect (awaited hosts [] dead empty) none answers ≡ connected c))
    ⊎ (All IsRefusal answers × (collect (awaited hosts [] dead empty) none answers ≡ waiting))
collect_lem_example = collect_lem hosts [] dead empty answers all_answered (inl has_dead)

dead_line : line_of 5 dead.addresses ≡ some line
unfolding line_of
dead_line = refl
