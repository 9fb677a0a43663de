-- ===== src/Dashboard/Driver/Turn.antt =====
-- A whole turn of the loop (`iteration` of native/src/dashboard/runtime.rs).
use retrodeck.Prelude.{
  ℕ, ◌+◌, ◌≤◌, ◌≡◌, refl, sym, subst, inl, inr, Bool, true, false, not, ◌&&◌, List, [], ◌∷◌, Option,
  none, some, if◌then◌else◌, take, ◌||◌, arith,
}
use retrodeck.Prelude.Result.{Result, ok, err}
use retrodeck.Input.{TouchReport}
use retrodeck.Policy.{Game, LaunchPlan, launch_plan}
use retrodeck.Dashboard.{LaunchRequest, Pending, Event, App}
use retrodeck.Dashboard.Commands.{collect_actions}
use retrodeck.Dashboard.Launches.{LaunchError, pending_application}
use retrodeck.Dashboard.Protocol.{AtRest}
use retrodeck.Dashboard.Reduce.Requests.{
  begin-Requested, begin-Idle, tick-Requested, tick-Idle, touch_lost-Requested, touch_lost-Idle,
  controls-Requested, controls-Discards, touch-Requested,
}
use retrodeck.Dashboard.Driver.{
  Host, Runtime, Reply, Outcome, Poll, effect, then_run, follow, step, prepared, carry_out,
  touches_step, launch_pending, lose_touch, take_touches, handle_input, is_quarantined, poll_fails,
  shut_down, finish, after_poll, iteration, run_loop,
}
use retrodeck.Dashboard.Driver.Completion.{Ends, then_run-Ends}
use retrodeck.Dashboard.Driver.Rest.{
  Rested, AfterControls, step-Rested, step-AfterControls, step-Ends, step-prepared,
}

-- What a client does after an outcome at rest.
then_run-Rested :
    (o : Outcome) (k : Runtime → App → Bool → Outcome) (batch : Bool)
    → Rested batch o
    → ((rt : Runtime) (a : App) (d : Bool) → AtRest batch a.pending → Ends none (k rt a d))
    → Ends none (then_run o k)
unfolding then_run
then_run-Rested (Outcome.stepped rt a d) k batch h c = c rt a d h
then_run-Rested Outcome.failed k batch h c = tt
then_run-Rested Outcome.unplanned k batch h c = tt
then_run-Rested Outcome.no_menu_layout k batch h c = tt
then_run-Rested Outcome.out_of_order k batch h c = absurd h
then_run-Rested Outcome.panicked k batch h c = absurd h
then_run-Rested Outcome.out_of_fuel k batch h c = absurd h

prepared-Ends :
    (g : Result LaunchError Game) (n : ℕ) (h : Host) (rt : Runtime) (a : App) (d : Bool)
    (r : LaunchRequest)
    → 5 ≤ n
    → a.pending ≡ some (Pending.launch r)
    → Ends none (follow (step n h) (prepared g h rt a) a d (λ rt' a' d'. Outcome.stepped rt' a' d'))
unfolding prepared follow
prepared-Ends (err e) n h rt a d r le p = tt
prepared-Ends (ok g) n h rt a d r le p =
    planned
      (launch_plan g a.settings.volume a.settings.keymap rt.widget (some h.volume_path) h.config)
  where
    planned :
        (plan : Option LaunchPlan)
        → Ends none (
            follow
              (step n h)
              (elim plan [
                | some q ↦ Reply.completes rt (Event.prepared g q)
                | none ↦ Reply.unplanned
              ])
              a
              d
              (λ rt' a' d'. Outcome.stepped rt' a' d'))
    planned none = tt
    planned (some q) =
        then_run-Ends none none (step n h rt a d (Event.prepared g q))
          (λ rt' a' d'. Outcome.stepped rt' a' d') (step-prepared n h rt a d r g q le p)
          (λ rt' a' d' e. e)

launch_pending-Ends :
    (p : Option Pending) (batch : Bool) (n : ℕ) (h : Host) (rt : Runtime) (a : App) (d : Bool)
    → 5 ≤ n
    → a.pending ≡ p
    → AtRest batch p
    → Ends none (launch_pending p n h rt a d)
unfolding launch_pending effect carry_out
launch_pending-Ends none batch n h rt a d le e r = e
launch_pending-Ends (some (Pending.launch l)) batch n h rt a d le e r =
    prepared-Ends (pending_application a) n h (record rt { effects_done = rt.effects_done + 1 }) a d
      l le e
launch_pending-Ends (some (Pending.settings p)) batch n h rt a d le e r = absurd r
launch_pending-Ends (some (Pending.volume_tone p)) batch n h rt a d le e r = absurd r
launch_pending-Ends (some Pending.wifi) batch n h rt a d le e r = absurd r
launch_pending-Ends (some Pending.network) batch n h rt a d le e r = absurd r
launch_pending-Ends (some (Pending.child p)) batch n h rt a d le e r = absurd r

then_step :
    (o : Outcome) (batch : Bool) (k : Runtime → App → Bool → Outcome)
    → Rested batch o
    → ((rt : Runtime) (a : App) (d : Bool) → AtRest batch a.pending → Rested batch (k rt a d))
    → Rested batch (then_run o k)
unfolding then_run
then_step (Outcome.stepped rt a d) batch k h c = c rt a d h
then_step Outcome.failed batch k h c = tt
then_step Outcome.unplanned batch k h c = tt
then_step Outcome.no_menu_layout batch k h c = tt
then_step Outcome.out_of_order batch k h c = absurd h
then_step Outcome.panicked batch k h c = absurd h
then_step Outcome.out_of_fuel batch k h c = absurd h

touches_step-Rested :
    (n : ℕ) (h : Host) (ts : List TouchReport) (rt : Runtime) (a : App) (d : Bool)
    → 5 ≤ n
    → AtRest true a.pending
    → Rested true (touches_step n h ts rt a d)
unfolding touches_step
touches_step-Rested n h [] rt a d le r = r
touches_step-Rested n h (t ∷ ts) rt a d le r =
    then_step (step n h rt a d (Event.touch rt.now t)) true _
      (step-Rested true n h rt a d (Event.touch rt.now t) le
        (touch-Requested a rt.now t rt.layout r))
      (λ rt' a' d' r'. touches_step-Rested n h ts rt' a' d' le r')

-- The touches of the batch, where no launch is pending; and the launch that they ask for.
touched-Ends :
    (taken : Bool) (n : ℕ) (h : Host) (p : Poll) (rt : Runtime) (a : App) (d : Bool)
    → 5 ≤ n
    → AtRest false a.pending
    → (taken ≡ true → a.pending ≡ none)
    → Ends none (
        then_run
          (take_touches taken n h p rt a d)
          (λ rt' a' d'. launch_pending a'.pending n h rt' a' d'))
unfolding take_touches then_run
touched-Ends false n h p rt a d le r idle = launch_pending-Ends a.pending false n h rt a d le refl r
touched-Ends true n h p rt a d le r idle =
    then_run-Rested (touches_step n h (take p.touch_count p.touches) rt a d) _ true
      (touches_step-Rested n h (take p.touch_count p.touches) rt a d le
        (subst (AtRest true) (sym (idle refl)) tt))
      (λ rt' a' d' r'. launch_pending-Ends a'.pending true n h rt' a' d' le refl r')

-- With the touches taken unless the touchscreen is lost or a command discards them.
AfterControls-Ends :
    (o : Outcome) (lost : Bool) (n : ℕ) (h : Host) (p : Poll)
    → 5 ≤ n
    → AfterControls o
    → Ends none (
        then_run o (λ rt a d.
          then_run
            (take_touches (not lost && not d) n h p rt a d)
            (λ rt' a' d'. launch_pending a'.pending n h rt' a' d')))
unfolding then_run
AfterControls-Ends (Outcome.stepped rt a d) lost n h p le (r, inl idle) =
    touched-Ends (not lost && not d) n h p rt a d le r (λ t. idle)
AfterControls-Ends (Outcome.stepped rt a d) lost n h p le (r, inr discarded) =
    touched-Ends (not lost && not d) n h p rt a d le r (λ t. absurd (ground arith))
AfterControls-Ends Outcome.failed lost n h p le r = tt
AfterControls-Ends Outcome.unplanned lost n h p le r = tt
AfterControls-Ends Outcome.no_menu_layout lost n h p le r = tt
AfterControls-Ends Outcome.out_of_order lost n h p le r = absurd r
AfterControls-Ends Outcome.panicked lost n h p le r = absurd r
AfterControls-Ends Outcome.out_of_fuel lost n h p le r = absurd r

lose_touch-Ends :
    (lost : Bool) (n : ℕ) (h : Host) (rt : Runtime) (a : App) (d : Bool)
    → 5 ≤ n
    → a.pending ≡ none
    → Ends none (lose_touch lost n h rt a d)
unfolding lose_touch
lose_touch-Ends true n h rt a d le e =
    step-Ends n h (record rt { touch_owned = false }) a d Event.touch_lost le
      (touch_lost-Requested a rt.layout e) (touch_lost-Idle a rt.layout e)
lose_touch-Ends false n h rt a d le e = e

handle_input-Ends :
    (input_ready : Bool) (n : ℕ) (h : Host) (p : Poll) (rt : Runtime) (a : App) (d : Bool)
    → 5 ≤ n
    → a.pending ≡ none
    → Ends none (handle_input input_ready n h p rt a d)
unfolding handle_input
handle_input-Ends false n h p rt a d le e = e
handle_input-Ends true n h p rt a d le e =
    let (gamepad, keyboard) = collect_actions p.reports in
    then_run-Ends none none (lose_touch p.touch_lost n h rt a d) _
      (lose_touch-Ends p.touch_lost n h rt a d le e)
      (λ rt' a' d' e'.
        let quarantined = is_quarantined rt' in
        let event = Event.controls rt'.now gamepad keyboard quarantined in
        AfterControls-Ends (step n h rt' a' d' event) p.touch_lost n h p le (
          step-AfterControls n h rt' a' d' event le
            (controls-Requested a' rt'.now gamepad keyboard quarantined rt'.layout e')
            (controls-Discards a' rt'.now gamepad keyboard quarantined rt'.layout e')))

one_of :
    (q : Option Pending) (b : Bool) (o p : Outcome)
    → Ends q o
    → Ends q p
    → Ends q (if b then o else p)
one_of q true o p h k = h
one_of q false o p h k = k

finish-Ends :
    (p : Poll) (rt : Runtime) (a : App) (d : Bool) → a.pending ≡ none → Ends none (finish p rt a d)
unfolding finish
finish-Ends p rt a d e =
    one_of none _ (Outcome.stepped (shut_down rt) a d) (Outcome.stepped rt a d) e e

after_poll-Ends :
    (fuel : ℕ) (h : Host) (p : Poll) (rt : Runtime) (a : App) (d : Bool)
    → 5 ≤ fuel
    → a.pending ≡ none
    → Ends none (after_poll fuel h p rt a d)
unfolding after_poll
after_poll-Ends fuel h p rt a d le e =
    let polled = record rt { now = p.ended_at; rescan = rt.rescan || p.rescan } in
    one_of none (poll_fails p) Outcome.failed _ tt (
      then_run-Ends none none (step fuel h polled a d (Event.tick p.ended_at)) _
        (step-Ends fuel h polled a d (Event.tick p.ended_at) le
          (tick-Requested a p.ended_at polled.layout e) (tick-Idle a p.ended_at polled.layout e))
        (λ rt1 a1 d1 e1.
          then_run-Ends none none (handle_input p.is_ready fuel h p rt1 a1 d1) _
            (handle_input-Ends p.is_ready fuel h p rt1 a1 d1 le e1)
            (λ rt2 a2 d2 e2. finish-Ends p rt2 a2 d2 e2)))

-- A turn of the loop that starts with nothing pending ends with nothing pending, whatever it meets
-- and the devices, the files and the child process answer, unless an error of a device or of a
-- launch, or a menu without a layout, ends the program: five levels of completions are enough, no
-- event reaches the reducer out of order, and the reducer finds what it waits for.
pub iteration-Ends :
    (fuel : ℕ) (h : Host) (p : Poll) (rt : Runtime) (a : App)
    → 5 ≤ fuel
    → a.pending ≡ none
    → Ends none (iteration fuel h p rt a)
unfolding iteration
iteration-Ends fuel h p rt a le e =
    let begun = record rt { now = p.began_at; rescan = false } in
    let event = Event.begin p.began_at rt.widget rt.rescan in
    then_run-Ends none none (step fuel h begun a false event) _
      (step-Ends fuel h begun a false event le
        (begin-Requested a p.began_at rt.widget rt.rescan begun.layout e)
        (begin-Idle a p.began_at rt.widget rt.rescan begun.layout e))
      (λ rt1 a1 d1 e1. after_poll-Ends fuel h p rt1 a1 d1 le e1)

pub run_loop-Ends :
    (fuel : ℕ) (h : Host) (polls : List Poll) (rt : Runtime) (a : App)
    → 5 ≤ fuel
    → a.pending ≡ none
    → Ends none (run_loop fuel h polls rt a)
unfolding run_loop
run_loop-Ends fuel h [] rt a le e = e
run_loop-Ends fuel h (p ∷ polls) rt a le e =
    one_of none rt.running _ (Outcome.stepped rt a false)
      (then_run-Ends none none (iteration fuel h p rt a) (λ rt' a' d. run_loop fuel h polls rt' a')
        (iteration-Ends fuel h p rt a le e)
        (λ rt' a' d e'. run_loop-Ends fuel h polls rt' a' le e'))
      e
