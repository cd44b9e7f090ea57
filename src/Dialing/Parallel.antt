-- ===== src/Dialing/Parallel.antt =====
-- Parallel dials: what the loop over the answers comes to.
use oiwest_core.Common.{
  ℕ, zero, suc, ◌≤◌, ◌<◌, ◌≡◌, refl, ap, ◌∙◌, inl, inr, ◌⊎◌, List, [], ◌∷◌, ◌++◌, length,
  length-append, Option, none, some, All, arith,
}
use oiwest_core.Dialing.{
  Ip, Error, Answer, conn, failed, Line, Pool, alive_lines, launched, awaited, connected,
  refused_all, waiting, collect,
}

abbrev pub IsRefusal : Answer → Type 0
IsRefusal a = (e : Error) × (a ≡ failed e)

-- The first connection among the answers, behind errors.
abbrev pub FirstConn : List Answer → ℕ → Type 0
FirstConn answers c =
    (before after : List Answer) × (answers ≡ before ++ (conn c ∷ after)) × All IsRefusal before

first_conn : (answers : List Answer) → ((c : ℕ) × FirstConn answers c) ⊎ All IsRefusal answers
first_conn [] = inr tt
first_conn (conn c ∷ answers) = inl (c, ([], answers, refl, tt))
first_conn (failed e ∷ answers) = elim (first_conn answers) [
  | inl (c, (before, after, split, none_)) ↦
      inl (c, (failed e ∷ before, after, ap (λ r. failed e ∷ r) split, ((e, refl), none_)))
  | inr none_ ↦ inr ((e, refl), none_)
]

collect_conn :
    (n c : ℕ) (first : Option Error) (before after : List Answer)
    → All IsRefusal before
    → length before < n
    → collect n first (before ++ (conn c ∷ after)) ≡ connected c
unfolding collect
collect_conn zero c first before after v h = absurd (omega arith)
collect_conn (suc n) c first [] after v h = refl
collect_conn (suc n) c none (failed e ∷ before) after (_, v) h =
    collect_conn n c (some e) before after v (omega arith)
collect_conn (suc n) c (some e) (failed _ ∷ before) after (_, v) h =
    collect_conn n c (some e) before after v (omega arith)
collect_conn (suc n) c first (conn d ∷ before) after ((e, wrong), v) h = cc wrong

-- Refusals alone, after an error.
refused_after :
    (n : ℕ) (e : Error) (answers : List Answer)
    → All IsRefusal answers
    → (length answers ≡ n → collect n (some e) answers ≡ refused_all e)
      × (length answers < n → collect n (some e) answers ≡ waiting)
unfolding collect
refused_after zero e [] v = (λ _. refl, λ h. absurd (omega arith))
refused_after (suc n) e [] v = (λ h. absurd (omega arith), λ _. refl)
refused_after zero e (a ∷ answers) v = (λ h. absurd (omega arith), λ h. absurd (omega arith))
refused_after (suc n) e (conn d ∷ answers) ((e', wrong), v) = cc wrong
refused_after (suc n) e (failed _ ∷ answers) (_, v) =
    let (all, some_) = refused_after n e answers v in
    (λ h. all (omega arith), λ h. some_ (omega arith))

-- Refusals alone: with every answer awaited in, the error of the first; with one missing, a wait.
pub refused_alone :
    (n : ℕ) (answers : List Answer)
    → 0 < n
    → All IsRefusal answers
    → (length answers ≡ n → (e : Error) × (collect n none answers ≡ refused_all e))
      × (length answers < n → collect n none answers ≡ waiting)
unfolding collect
refused_alone zero answers more v = absurd (omega arith)
refused_alone (suc n) [] more v = (λ h. absurd (omega arith), λ _. refl)
refused_alone (suc n) (conn d ∷ answers) more ((e', wrong), v) = cc wrong
refused_alone (suc n) (failed e ∷ answers) more (_, v) =
    let (all, some_) = refused_after n e answers v in
    (λ h. (e, all (omega arith)), λ h. some_ (omega arith))

alive_lines-le-length : (ls : List Line) → alive_lines ls ≤ length ls
unfolding alive_lines
alive_lines-le-length [] = omega arith
alive_lines-le-length (l ∷ ls) = let h = alive_lines-le-length ls in ground arith

-- A pool of which a line is dead.
abbrev pub HasDead : Pool → Type 0
HasDead p = alive_lines p.addresses < length p.addresses

launched-lt-awaited :
    (ipv4 ipv6 : List Ip) (pool4 pool6 : Pool)
    → HasDead pool4 ⊎ HasDead pool6
    → launched ipv4 ipv6 pool4 pool6 < awaited ipv4 ipv6 pool4 pool6
unfolding launched awaited
launched-lt-awaited ipv4 ipv6 pool4 pool6 (inl h) =
    let le = alive_lines-le-length pool6.addresses in omega arith
launched-lt-awaited ipv4 ipv6 pool4 pool6 (inr h) =
    let le = alive_lines-le-length pool4.addresses in omega arith

-- When every dial that dialParallel started has answered and a line of a pool is dead, it has the
-- connection of the first dial that made one, or, where all refuse, still waits for an answer, until its
-- context is done.
pub collect_lem :
    (ipv4 ipv6 : List Ip) (pool4 pool6 : Pool) (answers : List Answer)
    → length answers ≡ launched ipv4 ipv6 pool4 pool6
    → HasDead pool4 ⊎ HasDead pool6
    → ((c : ℕ) × FirstConn answers c
        × (collect (awaited ipv4 ipv6 pool4 pool6) none answers ≡ connected c))
      ⊎ (All IsRefusal answers × (collect (awaited ipv4 ipv6 pool4 pool6) none answers ≡ waiting))
collect_lem ipv4 ipv6 pool4 pool6 answers all dead =
    let less = launched-lt-awaited ipv4 ipv6 pool4 pool6 dead in
    elim (first_conn answers) [
      | inl (c, (before, after, split, none_)) ↦ inl (
        c,
        (before, after, split, none_),
        ap (λ r. collect (awaited ipv4 ipv6 pool4 pool6) none r) split
            ∙ collect_conn (awaited ipv4 ipv6 pool4 pool6) c none before after none_
                (omega (arith, ap length split, length-append before (conn c ∷ after))),
      )
      | inr none_ ↦ inr (
        none_,
        (refused_alone (awaited ipv4 ipv6 pool4 pool6) answers (omega arith) none_).1 (omega arith),
      )
    ]
