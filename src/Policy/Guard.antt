-- ===== src/Policy/Guard.antt =====
-- The guard against a controller that floods the dashboard (`ControllerGuard` of
-- native/src/dashboard/policy.rs): how many edges it lets through.
use retrodeck.Prelude.{
  ℕ, ◌+◌, ◌-◌, ◌≤◌, ◌≡◌, refl, sym, subst, inl, inr, Bool, true, false, ◌&&◌, List, [], ◌∷◌, ◌++◌,
  Option, none, some, ltb, leb, leb→le, if◌then◌else◌, if_false, length, arith, Bool-cases,
}
use retrodeck.Policy.{
  ControllerGuard, new, retain_recent, counted, accept_edge, is_quiet, recover_if_quiet,
}

-- What happens to a guard, each so many milliseconds after the last.
pub data Step : Type 0 where
  edge quiet_check : ℕ → Step

-- The guard, the clock, and the times of the edges that it accepted, the last one first.
pub record Run : Type 0 where
  pub guard : ControllerGuard
  pub clock : ℕ
  pub accepted : List ℕ

pub start : ℕ → Run
start clock = record { guard = new; clock = clock; accepted = [] }

after_edge : ControllerGuard × Bool → ℕ → List ℕ → Run
after_edge (g, true) now accepted = record { guard = g; clock = now; accepted = now ∷ accepted }
after_edge (g, false) now accepted = record { guard = g; clock = now; accepted = accepted }

pub step : Run → Step → Run
unfolding after_edge
step r (Step.edge d) = after_edge (accept_edge r.guard (r.clock + d)) (r.clock + d) r.accepted
step r (Step.quiet_check d) = record {
  guard = (recover_if_quiet r.guard (r.clock + d)).0;
  clock = r.clock + d;
  accepted = r.accepted;
}

pub run : Run → List Step → Run
run r [] = r
run r (s ∷ steps) = run (step r s) steps

abbrev one_if : Bool → ℕ
one_if b = if b then 1 else 0

-- How many of the times lie in the second that ends at `end`.
pub within_second : ℕ → List ℕ → ℕ
within_second end [] = 0
within_second end (t ∷ times) = one_if (leb t end && ltb (end - t) 1000) + within_second end times

-- The same for times that are not after `end`.
recent : ℕ → List ℕ → ℕ
recent end [] = 0
recent end (t ∷ times) = one_if (ltb (end - t) 1000) + recent end times

AllUpTo : ℕ → List ℕ → Type 0
AllUpTo now [] = Unit
AllUpTo now (t ∷ times) = (t ≤ now) × AllUpTo now times

later : (a b : ℕ) (times : List ℕ) → a ≤ b → AllUpTo a times → AllUpTo b times
unfolding AllUpTo
later a b [] h k = tt
later a b (t ∷ times) h k = (let c = k.0 in omega arith, later a b times h k.1)

recent-append : (end : ℕ) (xs ys : List ℕ) → recent end (xs ++ ys) ≡ recent end xs + recent end ys
unfolding recent
recent-append end [] ys = omega arith
recent-append end (x ∷ xs) ys = omega (arith, recent-append end xs ys)

recent-le : (end : ℕ) (xs : List ℕ) → recent end xs ≤ length xs
unfolding recent
recent-le end [] = omega arith
recent-le end (x ∷ xs) = let a = recent-le end xs in ground arith

-- What is dropped is no longer recent at any later time.
recent-retain :
    (now end : ℕ) (xs : List ℕ) → now ≤ end → recent end (retain_recent now xs) ≡ recent end xs
unfolding recent retain_recent
recent-retain now end [] h = refl
recent-retain now end (x ∷ xs) h =
    let a = recent-retain now end xs h in
    elim (Bool-cases (ltb (now - x) 1000)) [
      | inl keep ↦ rw keep (omega (arith, a))
      | inr old ↦
          let gone : ltb (end - x) 1000 ≡ false = ground arith in rw (old, gone) (omega (arith, a))
    ]

-- Of times up to `now`, no more are within a second before a later time.
within_second-le :
    (now end : ℕ) (xs : List ℕ) → now ≤ end → AllUpTo now xs → within_second end xs ≤ recent now xs
unfolding within_second recent AllUpTo
within_second-le now end [] h k = omega arith
within_second-le now end (x ∷ xs) h k =
    let a = within_second-le now end xs h k.1 in let b = k.0 in ground arith

none_recent : (last end : ℕ) (xs : List ℕ) → last + 1000 ≤ end → AllUpTo last xs → recent end xs ≡ 0
unfolding recent AllUpTo
none_recent last end [] h k = refl
none_recent last end (x ∷ xs) h k =
    let a = none_recent last end xs h k.1 in let b = k.0 in ground arith

UpToLast : Option ℕ → List ℕ → Type 0
UpToLast none accepted = Unit
UpToLast (some t) accepted = AllUpTo t accepted

-- The guard remembers at least the recent edges among those that it accepted.
record Inv (r : Run) : Type 0 where
  past : AllUpTo r.clock r.accepted
  last : UpToLast r.guard.last_edge_at r.accepted
  known : (end : ℕ) → r.clock ≤ end → recent end r.accepted ≤ recent end r.guard.edge_times
  few : (end : ℕ) → within_second end r.accepted ≤ 12

-- A guard's times with an edge at `now` counted.
remember : ℕ → List ℕ → List ℕ
remember now times = retain_recent now times ++ (now ∷ [])

remember_recent :
    (now end : ℕ) (times : List ℕ)
    → now ≤ end
    → recent end (remember now times) ≡ recent end times + one_if (ltb (end - now) 1000)
unfolding remember recent
remember_recent now end times h =
    let a = recent-append end (retain_recent now times) (now ∷ []) in
    let b = recent-retain now end times h in omega arith

few_with :
    (r : Run) (now : ℕ)
    → r.clock ≤ now
    → Inv r
    → length (remember now r.guard.edge_times) ≤ 12
    → (end : ℕ) → within_second end (now ∷ r.accepted) ≤ 12
unfolding within_second
few_with r now h inv short end = elim (Bool-cases (leb now end)) [
  | inr before ↦ let a = inv.few end in rw before (omega arith)
  | inl after ↦
      let a =
        within_second-le now end r.accepted (ground arith)
          (later r.clock now r.accepted h inv.past) in
      let b = inv.known now h in
      let c = remember_recent now now r.guard.edge_times (omega arith) in
      let d = recent-le now (remember now r.guard.edge_times) in ground arith
]

counted-Inv :
    (r : Run) (d : ℕ) (g : ControllerGuard)
    → Inv r
    → g.last_edge_at ≡ some (r.clock + d)
    → Inv (
        after_edge (counted g (remember (r.clock + d) r.guard.edge_times)) (r.clock + d) r.accepted)
unfolding counted after_edge UpToLast AllUpTo recent within_second
counted-Inv r d g inv e =
    let now = r.clock + d in
    let times = remember now r.guard.edge_times in
    let past = later r.clock now r.accepted (omega arith) inv.past in
    elim (Bool-cases (leb (length times) 12)) [
      | inl few ↦ rw few (record {
        past = (omega arith, past);
        last = rw e (omega arith, past);
        known = λ end h.
            let a = remember_recent now end r.guard.edge_times h in
            let b = inv.known end (omega arith) in omega arith;
        few = few_with r now (omega arith) inv (leb→le (length times) 12 few);
      })
      | inr many ↦ rw many (record {
        past = past;
        last = rw e past;
        known = λ end h.
            let a = remember_recent now end r.guard.edge_times h in
            let b = inv.known end (omega arith) in omega arith;
        few = inv.few;
      })
    ]

edge-Inv : (r : Run) (d : ℕ) → Inv r → Inv (step r (Step.edge d))
unfolding step accept_edge remember after_edge UpToLast
edge-Inv r d inv = elim (Bool-cases r.guard.suspended) [
  | inr open_now ↦
      subst (λ p. Inv (after_edge p (r.clock + d) r.accepted))
        (sym (if_false r.guard.suspended _ _ open_now))
        (counted-Inv r d (record r.guard { last_edge_at = some (r.clock + d) }) inv refl)
  | inl shut ↦
      let past = later r.clock (r.clock + d) r.accepted (omega arith) inv.past in
      rw shut (record {
        past = past;
        last = past;
        known = λ end h. inv.known end (omega arith);
        few = inv.few;
      })
]

recovered_known :
    (o : Option ℕ) (now end : ℕ) (accepted : List ℕ)
    → is_quiet o now ≡ true
    → now ≤ end
    → UpToLast o accepted
    → recent end accepted ≡ 0
unfolding is_quiet UpToLast
recovered_known none now end accepted q h k = absurd (cc q)
recovered_known (some t) now end accepted q h k = none_recent t end accepted (ground arith) k

quiet_check-Inv : (r : Run) (d : ℕ) → Inv r → Inv (step r (Step.quiet_check d))
unfolding step recover_if_quiet new UpToLast
quiet_check-Inv r d inv =
    let past = later r.clock (r.clock + d) r.accepted (omega arith) inv.past in
    elim (Bool-cases (r.guard.suspended && is_quiet r.guard.last_edge_at (r.clock + d))) [
      | inr stays ↦ rw stays (record {
        past = past;
        last = inv.last;
        known = λ end h. inv.known end (omega arith);
        few = inv.few;
      })
      | inl recovers ↦
          let quiet : is_quiet r.guard.last_edge_at (r.clock + d) ≡ true = ground arith in
          rw recovers (record {
            past = past;
            last = tt;
            known = λ end h.
                let a =
                  recovered_known r.guard.last_edge_at (r.clock + d) end r.accepted quiet h
                    inv.last in
                omega arith;
            few = inv.few;
          })
    ]

run-Inv : (r : Run) (steps : List Step) → Inv r → Inv (run r steps)
unfolding run
run-Inv r [] inv = inv
run-Inv r (Step.edge d ∷ steps) inv = run-Inv (step r (Step.edge d)) steps (edge-Inv r d inv)
run-Inv r (Step.quiet_check d ∷ steps) inv =
    run-Inv (step r (Step.quiet_check d)) steps (quiet_check-Inv r d inv)

start-Inv : (clock : ℕ) → Inv (start clock)
unfolding start new AllUpTo UpToLast recent within_second
start-Inv clock = record {
  past = tt;
  last = tt;
  known = λ end h. omega arith;
  few = λ end. omega arith;
}

-- However the edges of a controller and the checks for quiet follow each other on a clock that does
-- not run back, a new guard accepts at most twelve edges in any second.
pub run-few :
    (clock end : ℕ) (steps : List Step) → within_second end (run (start clock) steps).accepted ≤ 12
run-few clock end steps = (run-Inv (start clock) steps (start-Inv clock)).few end
