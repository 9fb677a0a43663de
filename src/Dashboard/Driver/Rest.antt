-- ===== src/Dashboard/Driver/Rest.antt =====
-- What the loop of native/src/dashboard/runtime.rs is left with after an event.
use retrodeck.Prelude.{
  ℕ, suc, zero, ◌+◌, ◌≤◌, ◌≡◌, refl, sym, subst, ◌⊎◌, inl, inr, Bool, true, false, ◌||◌, List, [],
  ◌∷◌, Option, none, some, arith,
}
use retrodeck.Policy.{Game, LaunchPlan}
use retrodeck.Dashboard.{LaunchRequest, Pending, Effect, Event, App}
use retrodeck.Dashboard.Protocol.{rest_of, AtRest}
use retrodeck.Dashboard.Steps.{Reduced}
use retrodeck.Dashboard.Steps.Requests.{discards}
use retrodeck.Dashboard.Reduce.{reduce}
use retrodeck.Dashboard.Reduce.Completions.{prepared-Fits}
use retrodeck.Dashboard.Reduce.Requests.{Requested, Discards, Idle}
use retrodeck.Dashboard.Driver.{
  Host, Runtime, Reply, Outcome, effect, is_discard, then_run, follow, run_effects, run_reduced,
  step, carry_out,
}
use retrodeck.Dashboard.Driver.Completion.{Ends, run-Ends, step-Rests, deeper, run_reduced-Ends}

-- The loop at rest, or ended by an error of a device, of a launch plan or of the menu's layout.
abbrev pub Rested : Bool → Outcome → Type 0
Rested batch (Outcome.stepped rt a discard) = AtRest batch a.pending
Rested batch Outcome.failed = Unit
Rested batch Outcome.unplanned = Unit
Rested batch Outcome.no_menu_layout = Unit
Rested batch o = ⊥

Ends-Rested :
    (batch : Bool) (q : Option Pending) (o : Outcome) → AtRest batch q → Ends q o → Rested batch o
Ends-Rested batch q (Outcome.stepped rt a d) r h = subst (AtRest batch) (sym h) r
Ends-Rested batch q Outcome.failed r h = tt
Ends-Rested batch q Outcome.unplanned r h = tt
Ends-Rested batch q Outcome.no_menu_layout r h = tt
Ends-Rested batch q Outcome.out_of_order r h = absurd h
Ends-Rested batch q Outcome.panicked r h = absurd h
Ends-Rested batch q Outcome.out_of_fuel r h = absurd h

reduced-Rested :
    (batch : Bool) (n : ℕ) (h : Host) (r : Reduced) (rt : Runtime) (d : Bool)
    → 2 ≤ n
    → Requested batch r
    → Rested batch (run_reduced (step n h) h rt d r)
unfolding run_reduced
reduced-Rested batch n h (Reduced.done a es) rt d le (s, deep, r) =
    Ends-Rested batch (rest_of a.pending) _ r
      (run-Ends n (step n h) h a.pending es rt a d (step-Rests n h) refl s (omega arith))
reduced-Rested batch n h Reduced.no_menu_layout rt d le r = tt
reduced-Rested batch n h Reduced.out_of_order rt d le r = absurd r
reduced-Rested batch n h Reduced.panicked rt d le r = absurd r

-- Five levels of completions are enough for every event.
pub step-Rested :
    (batch : Bool) (n : ℕ) (h : Host) (rt : Runtime) (a : App) (d : Bool) (e : Event)
    → 5 ≤ n
    → Requested batch (reduce a e rt.layout)
    → Rested batch (step n h rt a d e)
unfolding step
step-Rested batch zero h rt a d e le r = absurd (omega arith)
step-Rested batch (suc n) h rt a d e le r =
    reduced-Rested batch n h (reduce a e rt.layout) rt d (omega arith) r

-- The flag that discards touches stays set.
Kept : Outcome → Type 0
Kept (Outcome.stepped rt a discard) = discard ≡ true
Kept o = Unit

then_run-Kept :
    (o : Outcome) (k : Runtime → App → Bool → Outcome)
    → Kept o
    → ((rt : Runtime) (a : App) → Kept (k rt a true))
    → Kept (then_run o k)
unfolding then_run Kept
then_run-Kept (Outcome.stepped rt a d) k h c = subst (λ b. Kept (k rt a b)) (sym h) (c rt a)
then_run-Kept Outcome.failed k h c = tt
then_run-Kept Outcome.unplanned k h c = tt
then_run-Kept Outcome.no_menu_layout k h c = tt
then_run-Kept Outcome.out_of_order k h c = tt
then_run-Kept Outcome.panicked k h c = tt
then_run-Kept Outcome.out_of_fuel k h c = tt

Keeps : (Runtime → App → Bool → Event → Outcome) → Type 0
Keeps next = (rt : Runtime) (a : App) (e : Event) → Kept (next rt a true e)

follow-Kept :
    (next : Runtime → App → Bool → Event → Outcome) (r : Reply) (a : App)
    (k : Runtime → App → Bool → Outcome)
    → Keeps next
    → ((rt : Runtime) (a : App) → Kept (k rt a true))
    → Kept (follow next r a true k)
unfolding follow Kept Keeps
follow-Kept next (Reply.silent rt) a k h c = c rt a
follow-Kept next (Reply.completes rt e) a k h c = then_run-Kept (next rt a true e) k (h rt a e) c
follow-Kept next Reply.failed a k h c = tt
follow-Kept next Reply.unplanned a k h c = tt

run_effects-Kept :
    (next : Runtime → App → Bool → Event → Outcome) (h : Host) (es : List Effect) (rt : Runtime)
    (a : App)
    → Keeps next
    → Kept (run_effects next h rt a true es)
unfolding run_effects Kept
run_effects-Kept next h [] rt a k = refl
run_effects-Kept next h (e ∷ es) rt a k =
    follow-Kept next (effect h e rt a) a _ k (λ rt' a'. run_effects-Kept next h es rt' a' k)

run_reduced-Kept :
    (next : Runtime → App → Bool → Event → Outcome) (h : Host) (r : Reduced) (rt : Runtime)
    → Keeps next
    → Kept (run_reduced next h rt true r)
unfolding run_reduced Kept
run_reduced-Kept next h (Reduced.done a es) rt k = run_effects-Kept next h es rt a k
run_reduced-Kept next h Reduced.out_of_order rt k = tt
run_reduced-Kept next h Reduced.no_menu_layout rt k = tt
run_reduced-Kept next h Reduced.panicked rt k = tt

step-Keeps : (n : ℕ) (h : Host) → Keeps (step n h)
unfolding Keeps step Kept
step-Keeps zero h rt a e = tt
step-Keeps (suc n) h rt a e =
    run_reduced-Kept (step n h) h (reduce a e rt.layout) rt (step-Keeps n h)

-- Whatever comes before, the effect that discards the touches sets the flag.
then_run-discards :
    (o : Outcome) (k : Runtime → App → Bool → Outcome)
    → ((rt : Runtime) (a : App) (d : Bool) → Kept (k rt a d))
    → Kept (then_run o k)
unfolding then_run Kept
then_run-discards (Outcome.stepped rt a d) k c = c rt a d
then_run-discards Outcome.failed k c = tt
then_run-discards Outcome.unplanned k c = tt
then_run-discards Outcome.no_menu_layout k c = tt
then_run-discards Outcome.out_of_order k c = tt
then_run-discards Outcome.panicked k c = tt
then_run-discards Outcome.out_of_fuel k c = tt

follow-discards :
    (next : Runtime → App → Bool → Event → Outcome) (r : Reply) (a : App) (d : Bool)
    (k : Runtime → App → Bool → Outcome)
    → ((rt : Runtime) (a : App) (d : Bool) → Kept (k rt a d))
    → Kept (follow next r a d k)
unfolding follow Kept
follow-discards next (Reply.silent rt) a d k c = c rt a d
follow-discards next (Reply.completes rt e) a d k c = then_run-discards (next rt a d e) k c
follow-discards next Reply.failed a d k c = tt
follow-discards next Reply.unplanned a d k c = tt

or_true : (b : Bool) → (b || true) ≡ true
or_true true = refl
or_true false = refl

run_effects-discards :
    (next : Runtime → App → Bool → Event → Outcome) (h : Host) (es : List Effect) (rt : Runtime)
    (a : App) (d : Bool)
    → Keeps next
    → discards es ≡ true
    → Kept (run_effects next h rt a d es)
unfolding run_effects effect carry_out follow is_discard
run_effects-discards next h [] rt a d k c = absurd (cc c)
run_effects-discards next h (Effect.discard_touch ∷ es) rt a d k c =
    subst (λ b. Kept (run_effects next h (record rt { effects_done = rt.effects_done + 1 }) a b es))
      (sym (or_true d)) (run_effects-Kept next h es _ a k)
run_effects-discards next h (e ∷ es) rt a d k c =
    follow-discards next (effect h e rt a) a (d || is_discard e) _
      (λ rt' a' d'. run_effects-discards next h es rt' a' d' k c)

-- After the controllers: at rest, and without a launch or with the touches discarded.
abbrev pub AfterControls : Outcome → Type 0
AfterControls (Outcome.stepped rt a d) = AtRest false a.pending × ((a.pending ≡ none) ⊎ (d ≡ true))
AfterControls o = Rested false o

idle-AfterControls : (o : Outcome) → Ends none o → AfterControls o
idle-AfterControls (Outcome.stepped rt a d) h = (rw h tt, inl h)
idle-AfterControls Outcome.failed h = tt
idle-AfterControls Outcome.unplanned h = tt
idle-AfterControls Outcome.no_menu_layout h = tt
idle-AfterControls Outcome.out_of_order h = absurd h
idle-AfterControls Outcome.panicked h = absurd h
idle-AfterControls Outcome.out_of_fuel h = absurd h

Kept-AfterControls : (o : Outcome) → Rested false o → Kept o → AfterControls o
unfolding Kept
Kept-AfterControls (Outcome.stepped rt a d) h k = (h, inr k)
Kept-AfterControls Outcome.failed h k = tt
Kept-AfterControls Outcome.unplanned h k = tt
Kept-AfterControls Outcome.no_menu_layout h k = tt
Kept-AfterControls Outcome.out_of_order h k = absurd h
Kept-AfterControls Outcome.panicked h k = absurd h
Kept-AfterControls Outcome.out_of_fuel h k = absurd h

reduced-AfterControls :
    (n : ℕ) (h : Host) (r : Reduced) (rt : Runtime) (d : Bool)
    → 2 ≤ n
    → Requested false r
    → Discards r
    → AfterControls (run_reduced (step n h) h rt d r)
unfolding run_reduced
reduced-AfterControls n h (Reduced.done a es) rt d le (s, deep, r) (inl idle) =
    idle-AfterControls _ (
      subst (λ p. Ends (rest_of p) (run_effects (step n h) h rt a d es)) idle
        (run-Ends n (step n h) h a.pending es rt a d (step-Rests n h) refl s (omega arith)))
reduced-AfterControls n h (Reduced.done a es) rt d le (s, deep, r) (inr drops) =
    Kept-AfterControls _ (reduced-Rested false n h (Reduced.done a es) rt d le (s, deep, r))
      (run_effects-discards (step n h) h es rt a d (step-Keeps n h) drops)
reduced-AfterControls n h Reduced.no_menu_layout rt d le r c = tt
reduced-AfterControls n h Reduced.out_of_order rt d le r c = absurd r
reduced-AfterControls n h Reduced.panicked rt d le r c = absurd r

pub step-AfterControls :
    (n : ℕ) (h : Host) (rt : Runtime) (a : App) (d : Bool) (e : Event)
    → 5 ≤ n
    → Requested false (reduce a e rt.layout)
    → Discards (reduce a e rt.layout)
    → AfterControls (step n h rt a d e)
unfolding step
step-AfterControls zero h rt a d e le r c = absurd (omega arith)
step-AfterControls (suc n) h rt a d e le r c =
    reduced-AfterControls n h (reduce a e rt.layout) rt d (omega arith) r c

reduced-Ends :
    (n : ℕ) (h : Host) (r : Reduced) (rt : Runtime) (d : Bool)
    → 2 ≤ n
    → Requested false r
    → Idle r
    → Ends none (run_reduced (step n h) h rt d r)
unfolding run_reduced
reduced-Ends n h (Reduced.done a es) rt d le (s, deep, r) idle =
    subst (λ q. Ends q (run_effects (step n h) h rt a d es)) idle
      (run-Ends n (step n h) h a.pending es rt a d (step-Rests n h) refl s (omega arith))
reduced-Ends n h Reduced.no_menu_layout rt d le r c = tt
reduced-Ends n h Reduced.out_of_order rt d le r c = absurd r
reduced-Ends n h Reduced.panicked rt d le r c = absurd r

-- An event that asks for no launch.
pub step-Ends :
    (n : ℕ) (h : Host) (rt : Runtime) (a : App) (d : Bool) (e : Event)
    → 5 ≤ n
    → Requested false (reduce a e rt.layout)
    → Idle (reduce a e rt.layout)
    → Ends none (step n h rt a d e)
unfolding step
step-Ends zero h rt a d e le r c = absurd (omega arith)
step-Ends (suc n) h rt a d e le r c = reduced-Ends n h (reduce a e rt.layout) rt d (omega arith) r c

-- The launch, with its completions.
pub step-prepared :
    (n : ℕ) (h : Host) (rt : Runtime) (a : App) (d : Bool) (r : LaunchRequest) (g : Game)
    (p : LaunchPlan)
    → 5 ≤ n
    → a.pending ≡ some (Pending.launch r)
    → Ends none (step n h rt a d (Event.prepared g p))
unfolding step
step-prepared zero h rt a d r g p le e = absurd (omega arith)
step-prepared (suc n) h rt a d r g p le e =
    run_reduced-Ends n (step n h) h none (reduce a (Event.prepared g p) rt.layout) rt d
      (step-Rests n h)
      (deeper 4 n none (reduce a (Event.prepared g p) rt.layout) (omega arith)
        (prepared-Fits a r g p rt.layout e))
