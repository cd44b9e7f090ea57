-- ===== src/Router/First.antt =====
-- Which tag a route has.
use oiwest_core.Common.{
  ◌≡◌, ◌⊎◌, refl, inl, inr, true, false, List, [], ◌∷◌, ◌++◌, Option, some, Bool-cases,
}
use oiwest_core.Router.{
  Text, Lib, Balancer, Context, Compiled, is_nil, select_balancer, match_rule, fallback, route,
}

module _ (lib : Lib) where
  -- A rule that is passed over: it does not match, or names neither an outbound nor a balancer.
  abbrev pub Passed : Context lib → Compiled lib → Type 0
  Passed rc rule =
      (match_rule lib rule rc ≡ false)
      ⊎ ((is_nil rule.raw.outbound_tag ≡ true) × (is_nil rule.raw.balancer_tag ≡ true))

  abbrev pub AllPassed : Context lib → List (Compiled lib) → Type 0
  AllPassed rc [] = Unit
  AllPassed rc (rule ∷ rules) = Passed rc rule × AllPassed rc rules

  -- What a rule that is taken decides: its outbound, or else its balancer's choice.
  abbrev pub Decides : List Balancer → Context lib → Compiled lib → Text → Type 0
  Decides balancers rc rule tag =
      (match_rule lib rule rc ≡ true)
      × (((is_nil rule.raw.outbound_tag ≡ false) × (tag ≡ rule.raw.outbound_tag))
          ⊎ ((is_nil rule.raw.outbound_tag ≡ true)
              × (is_nil rule.raw.balancer_tag ≡ false)
              × (tag ≡ select_balancer balancers rule.raw.balancer_tag)))

  -- Why Route has the answer that it has.
  pub data Chosen (balancers : List Balancer) (rc : Context lib) (rules : List (Compiled lib))
      (answer : Option Text) : Type 0 where
    by_rule :
        (front back : List (Compiled lib)) (rule : Compiled lib) (tag : Text)
        → rules ≡ front ++ (rule ∷ back)
        → AllPassed rc front
        → Decides balancers rc rule tag
        → answer ≡ some tag
        → Chosen balancers rc rules answer
    by_default :
        AllPassed rc rules
        → answer ≡ fallback lib balancers balancers
        → Chosen balancers rc rules answer

  further :
      (balancers : List Balancer) (rc : Context lib) (rules : List (Compiled lib))
      (answer : Option Text) (rule : Compiled lib)
      → Passed rc rule
      → Chosen balancers rc rules answer
      → Chosen balancers rc (rule ∷ rules) answer
  further balancers rc rules answer rule p (by_rule front back r tag e all d a) =
      by_rule (rule ∷ front) back r tag (rw e refl) (p, all) d a
  further balancers rc rules answer rule p (by_default all a) = by_default (p, all) a

  -- Route takes the first rule that matches and names an outbound or a balancer; with no such rule it
  -- asks the first balancer, and only with no balancer either there is no route.
  pub route-Chosen :
      (rules : List (Compiled lib)) (balancers : List Balancer) (rc : Context lib)
      → Chosen balancers rc rules (route lib rules balancers rc)
  unfolding route
  route-Chosen [] balancers rc = by_default tt refl
  route-Chosen (rule ∷ rules) balancers rc = elim (Bool-cases (match_rule lib rule rc)) [
    | inr no_match ↦
        rw no_match
          (further balancers rc rules _ rule (inl no_match) (route-Chosen rules balancers rc))
    | inl hit ↦ elim (Bool-cases (is_nil rule.raw.outbound_tag)) [
      | inr out ↦
          rw (hit, out)
            (by_rule [] rules rule rule.raw.outbound_tag refl tt (hit, inl (out, refl)) refl)
      | inl none_out ↦ elim (Bool-cases (is_nil rule.raw.balancer_tag)) [
        | inr bal ↦
            rw (hit, none_out, bal)
              (by_rule [] rules rule (select_balancer balancers rule.raw.balancer_tag) refl tt
                (hit, inr (none_out, bal, refl)) refl)
        | inl none_bal ↦
            rw (hit, none_out, none_bal)
              (further balancers rc rules _ rule (inr (none_out, none_bal))
                (route-Chosen rules balancers rc))
      ]
    ]
  ]
