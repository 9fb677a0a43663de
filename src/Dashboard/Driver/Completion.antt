-- ===== src/Dashboard/Driver/Completion.antt =====
-- How the completions of effects are handled: the loop of native/src/dashboard/runtime.rs always
-- comes to rest.
use retrodeck.Prelude.{
  ℕ, suc, zero, ◌-◌, ◌≤◌, ◌<◌, ◌≡◌, refl, sym, subst, Bool, true, false, not, ◌||◌, List, [], ◌∷◌,
  Option, none, some, arith, Bool-cases, inl, inr, if◌then◌else◌, ◌&&◌,
}
use retrodeck.Menu.{MenuLayout}
use retrodeck.Menu.Window.{layout-some}
use retrodeck.Dashboard.{
  View, Cue, Recovery, ActiveLaunch, ChildResult, Pending, Effect, Event, App,
}
use retrodeck.Dashboard.Steps.{Reduced}
use retrodeck.Dashboard.Reduce.{reduce}
use retrodeck.Dashboard.Reduce.Completions.{
  settings_result-Fits, volume_tone_result-Fits, wifi_result-Fits, network_result-Fits,
  child_returned-Fits, controls_rescanned-Fits, presentation_opened-Fits, child_complete-Fits,
  idle_rescanned-Fits, touch_reconnected-Fits,
}
use retrodeck.Dashboard.Driver.{
  wifi_failure, Answers, Host, Runtime, Reply, Outcome, carry_out, menu_drawn, drawn, rendered,
  if_works, effect, then_run, follow, run_effects, run_reduced, step, is_discard, reconnected,
  launched, cue, open_presentation, presentation_reply,
}
use retrodeck.Dashboard.Protocol.{
  quiet, calm, all_quiet, all_calm, answers, answers_child, awaits, settled, depth, depth_child,
  rest_of, Fits,
}

-- The answer to an effect that fits no event.
Silent : Reply → Type 0
Silent (Reply.silent rt) = Unit
Silent Reply.failed = Unit
Silent r = ⊥

if_works-Silent : (b : Bool) (r : Reply) → Silent r → Silent (if_works b r)
unfolding if_works Silent
if_works-Silent true r h = h
if_works-Silent false r h = tt

rendered-Silent : (v : View) (a : App) (rt : Runtime) → Silent (rendered (drawn v a) rt)
unfolding rendered drawn menu_drawn Silent
rendered-Silent View.dashboard a rt =
    let (l, e) = layout-some a.games a.system a.position in
    subst (λ o. Silent (rendered (menu_drawn o) rt)) (sym e) tt
rendered-Silent View.settings a rt = tt
rendered-Silent View.wifi a rt = tt
rendered-Silent View.credits a rt = tt

carry_out-Silent :
    (w : Answers) (h : Host) (e : Effect) (rt : Runtime) (a : App)
    → quiet e ≡ true
    → Silent (carry_out w h e rt a)
unfolding carry_out Silent
carry_out-Silent w h Effect.render rt a q =
    if_works-Silent w.works (rendered (drawn a.view a) rt) (rendered-Silent a.view a rt)
carry_out-Silent w h Effect.present rt a q = if_works-Silent w.works _ tt
carry_out-Silent w h Effect.stop_sound rt a q = tt
carry_out-Silent w h Effect.finish_sound rt a q = tt
carry_out-Silent w h Effect.reap_sound rt a q = tt
carry_out-Silent w h Effect.close_controls rt a q = tt
carry_out-Silent w h Effect.discard_touch rt a q = tt
carry_out-Silent w h Effect.controller_suspended rt a q = tt
carry_out-Silent w h Effect.controller_resumed rt a q = tt
carry_out-Silent w h Effect.stop_loop rt a q = tt
carry_out-Silent w h (Effect.cue c) rt a q = tt
carry_out-Silent w h e rt a q = absurd (cc q)

-- The answer to an effect that the application waits for: an event whose reduction fits, or an
-- error that ends the loop.
Answered : ℕ → App → Reply → Type 0
Answered n a (Reply.completes rt e) = (l : Option MenuLayout) → Fits n none (reduce a e l)
Answered n a Reply.failed = Unit
Answered n a r = ⊥

if_works-Answered :
    (b : Bool) (n : ℕ) (a : App) (r : Reply) → Answered n a r → Answered n a (if_works b r)
unfolding if_works Answered
if_works-Answered true n a r h = h
if_works-Answered false n a r h = tt

launched-Answered :
    (child : Option ChildResult) (rt : Runtime) (clock : ℕ) (a : App) (active : ActiveLaunch)
    → a.pending ≡ some (Pending.child active)
    → active.recovery ≡ none
    → Answered 3 a (launched (some (Pending.child active)) child rt clock)
unfolding launched Answered
launched-Answered none rt clock a active h k = tt
launched-Answered (some r) rt clock a active h k =
    borrowed (not rt.widget && not rt.presentation_owned)
  where
    borrowed :
        (b : Bool)
        → Answered 3 a (
            if b
            then Reply.failed
            else Reply.completes
                (record rt { now = clock })
                (Event.child_returned r (not active.plan.touch_supervision)))
    borrowed true = tt
    borrowed false = λ l. child_returned-Fits a active r (not active.plan.touch_supervision) l h k

presentation_reply-Answered :
    (n : ℕ) (a : App) (o : Option Runtime)
    → ((l : Option MenuLayout) → Fits n none (reduce a Event.presentation_opened l))
    → Answered n a (presentation_reply o)
unfolding presentation_reply Answered
presentation_reply-Answered n a (some rt) h = h
presentation_reply-Answered n a none h = tt

child-Answered :
    (recovery : Option Recovery) (w : Answers) (h : Host) (e : Effect) (rt : Runtime) (a : App)
    (active : ActiveLaunch) (n : ℕ)
    → a.pending ≡ some (Pending.child active)
    → active.recovery ≡ recovery
    → answers_child recovery active.result e ≡ true
    → suc n ≡ depth_child recovery
    → Answered n a (carry_out w h e rt a)
unfolding carry_out Answered
child-Answered none w h Effect.launch rt a active n p k c d =
    let same : 3 ≡ n = omega arith in
    subst (λ m. Answered m a (launched a.pending w.child rt w.clock)) same
      (subst (λ q. Answered 3 a (launched q w.child rt w.clock)) (sym p)
        (launched-Answered w.child rt w.clock a active p k))
child-Answered (some Recovery.controls) w h Effect.scan_controls rt a active n p k c d =
    let same : 2 ≡ n = omega arith in
    subst (λ m. Answered m a (carry_out w h Effect.scan_controls rt a)) same
      (if_works-Answered w.works 2 a _ (λ l. controls_rescanned-Fits a active rt.now l p k c))
child-Answered (some Recovery.presentation) w h Effect.open_presentation rt a active n p k c d =
    let same : 1 ≡ n = omega arith in
    subst (λ m. Answered m a (carry_out w h Effect.open_presentation rt a)) same
      (presentation_reply-Answered 1 a (open_presentation w.presentation rt)
        (λ l. presentation_opened-Fits a active l p k c))
child-Answered (some Recovery.volume) w h Effect.reload_volume rt a active n p k c d =
    let same : 0 ≡ n = omega arith in
    subst (λ m. Answered m a (carry_out w h Effect.reload_volume rt a)) same
      (λ l. child_complete-Fits a active w.volume l p k c)
child-Answered none w h e rt a active n p k c d = absurd (cc c)
child-Answered (some Recovery.controls) w h e rt a active n p k c d = absurd (cc c)
child-Answered (some Recovery.presentation) w h e rt a active n p k c d = absurd (cc c)
child-Answered (some Recovery.volume) w h e rt a active n p k c d = absurd (cc c)

carry_out-Answered :
    (p : Pending) (w : Answers) (h : Host) (e : Effect) (rt : Runtime) (a : App) (n : ℕ)
    → a.pending ≡ some p
    → answers p e ≡ true
    → suc n ≡ depth (some p) (e ∷ [])
    → Answered n a (carry_out w h e rt a)
unfolding carry_out Answered
carry_out-Answered (Pending.settings plan) w h (Effect.settings_action q) rt a n p c d =
    let same : 1 ≡ n = omega arith in
    subst (λ m. Answered m a (carry_out w h (Effect.settings_action q) rt a)) same
      (λ l. settings_result-Fits a plan w.setting_saved l p)
carry_out-Answered (Pending.volume_tone plan) w h Effect.volume_cue rt a n p c d =
    let same : 0 ≡ n = omega arith in
    subst (λ m. Answered m a (carry_out w h Effect.volume_cue rt a)) same
      (λ l. volume_tone_result-Fits a plan (cue w Cue.volume a.settings.volume rt).1 l p)
carry_out-Answered Pending.wifi w h Effect.wifi_action rt a n p c d =
    let same : 0 ≡ n = omega arith in
    subst (λ m. Answered m a (carry_out w h Effect.wifi_action rt a)) same
      (λ l. wifi_result-Fits a w.wifi_saved (wifi_failure w.wifi_write_failed) l p)
carry_out-Answered Pending.network w h Effect.network_action rt a n p c d =
    let same : 0 ≡ n = omega arith in
    subst (λ m. Answered m a (carry_out w h Effect.network_action rt a)) same
      (λ l. network_result-Fits a w.network l p)
carry_out-Answered (Pending.child active) w h e rt a n p c d =
    child-Answered active.recovery w h e rt a active n p refl c d
carry_out-Answered (Pending.launch r) w h e rt a n p c d = absurd (cc c)
carry_out-Answered (Pending.settings plan) w h e rt a n p c d = absurd (cc c)
carry_out-Answered (Pending.volume_tone plan) w h e rt a n p c d = absurd (cc c)
carry_out-Answered Pending.wifi w h e rt a n p c d = absurd (cc c)
carry_out-Answered Pending.network w h e rt a n p c d = absurd (cc c)

-- The loop at rest with the pending action `q`, or ended by an error of a device or the menu's.
abbrev pub Ends : Option Pending → Outcome → Type 0
Ends q (Outcome.stepped rt a discard) = a.pending ≡ q
Ends q Outcome.failed = Unit
Ends q Outcome.unplanned = Unit
Ends q Outcome.no_menu_layout = Unit
Ends q o = ⊥

pub then_run-Ends :
    (q r : Option Pending) (o : Outcome) (k : Runtime → App → Bool → Outcome)
    → Ends q o
    → ((rt : Runtime) (a : App) (d : Bool) → a.pending ≡ q → Ends r (k rt a d))
    → Ends r (then_run o k)
unfolding then_run
then_run-Ends q r (Outcome.stepped rt a d) k h c = c rt a d h
then_run-Ends q r Outcome.failed k h c = tt
then_run-Ends q r Outcome.unplanned k h c = tt
then_run-Ends q r Outcome.no_menu_layout k h c = tt
then_run-Ends q r Outcome.out_of_order k h c = absurd h
then_run-Ends q r Outcome.panicked k h c = absurd h
then_run-Ends q r Outcome.out_of_fuel k h c = absurd h

-- A handler of completions that comes to rest when the reduction nests less than `n` deep.
abbrev pub Rests : ℕ → (Runtime → App → Bool → Event → Outcome) → Type 0
Rests n next =
    (rt : Runtime) (a : App) (d : Bool) (e : Event) (m : ℕ)
    → m < n
    → ((l : Option MenuLayout) → Fits m none (reduce a e l))
    → Ends none (next rt a d e)

follow_quiet :
    (next : Runtime → App → Bool → Event → Outcome) (r : Reply) (a : App) (d : Bool)
    (k : Runtime → App → Bool → Outcome) (q : Option Pending)
    → Silent r
    → ((rt : Runtime) → Ends q (k rt a d))
    → Ends q (follow next r a d k)
unfolding follow Silent
follow_quiet next (Reply.silent rt) a d k q s c = c rt
follow_quiet next (Reply.completes rt e) a d k q s c = absurd s
follow_quiet next Reply.failed a d k q s c = tt
follow_quiet next Reply.unplanned a d k q s c = absurd s

follow-Answered :
    (n m : ℕ) (next : Runtime → App → Bool → Event → Outcome) (r : Reply) (a : App) (d : Bool)
    (k : Runtime → App → Bool → Outcome)
    → Rests n next
    → m < n
    → Answered m a r
    → ((rt : Runtime) (b : App) (d : Bool) → b.pending ≡ none → Ends none (k rt b d))
    → Ends none (follow next r a d k)
unfolding follow Answered
follow-Answered n m next (Reply.completes rt e) a d k rests lt h c =
    then_run-Ends none none (next rt a d e) k (rests rt a d e m lt h) c
follow-Answered n m next Reply.failed a d k rests lt h c = tt
follow-Answered n m next (Reply.silent rt) a d k rests lt h c = absurd h
follow-Answered n m next Reply.unplanned a d k rests lt h c = absurd h

run_quiet :
    (next : Runtime → App → Bool → Event → Outcome) (h : Host) (q : Option Pending)
    (es : List Effect) (rt : Runtime) (a : App) (d : Bool)
    → a.pending ≡ q
    → all_quiet es ≡ true
    → Ends q (run_effects next h rt a d es)
unfolding run_effects effect
run_quiet next h q [] rt a d p c = p
run_quiet next h q (e ∷ es) rt a d p c =
    follow_quiet next (effect h e rt a) a (d || is_discard e) _ q
      (carry_out-Silent (h.world rt.effects_done) h e _ a (ground arith))
      (λ rt'. run_quiet next h q es rt' a (d || is_discard e) p (ground arith))

-- An effect that may be asked for while nothing is awaited, and is answered.
follow-calm :
    (n : ℕ) (next : Runtime → App → Bool → Event → Outcome) (w : Answers) (h : Host) (e : Effect)
    (rt : Runtime) (a : App) (d : Bool) (k : Runtime → App → Bool → Outcome)
    → Rests n next
    → 0 < n
    → a.pending ≡ none
    → calm e ≡ true
    → quiet e ≡ false
    → ((rt : Runtime) (b : App) (d : Bool) → b.pending ≡ none → Ends none (k rt b d))
    → Ends none (follow next (carry_out w h e rt a) a d k)
unfolding carry_out Answered reconnected Silent
follow-calm n next w h Effect.scan_controls rt a d k rests lt p c q m =
    follow-Answered n 0 next _ a d k rests lt
      (if_works-Answered w.works 0 a
        (Reply.completes (record rt { controls_owned = true }) (Event.controls_rescanned rt.now))
        (λ l. idle_rescanned-Fits a rt.now l p))
      m
follow-calm n next w h Effect.reconnect_touch rt a d k rests lt p c q m =
    follow_reconnected w.touch_opened
  where
    follow_reconnected : (opened : Bool) → Ends none (follow next (reconnected opened rt) a d k)
    follow_reconnected true =
        follow-Answered n 0 next
          (Reply.completes (record rt { touch_owned = true }) Event.touch_reconnected) a d k rests
          lt (λ l. touch_reconnected-Fits a l p) m
    follow_reconnected false =
        follow_quiet next (Reply.silent rt) a d k none tt (λ rt'. m rt' a d p)
follow-calm n next w h e rt a d k rests lt p c q m = absurd (ground arith)

run_calm :
    (n : ℕ) (next : Runtime → App → Bool → Event → Outcome) (h : Host) (es : List Effect)
    (rt : Runtime) (a : App) (d : Bool)
    → Rests n next
    → a.pending ≡ none
    → all_calm es ≡ true
    → depth none es ≤ n
    → Ends none (run_effects next h rt a d es)
unfolding run_effects effect
run_calm n next h [] rt a d rests p c le = p
run_calm n next h (e ∷ es) rt a d rests p c le = elim (Bool-cases (quiet e)) [
  | inl silent ↦
      follow_quiet next (effect h e rt a) a (d || is_discard e) _ none
        (carry_out-Silent (h.world rt.effects_done) h e _ a silent)
        (λ rt'.
          run_calm n next h es rt' a (d || is_discard e) rests p (ground arith) (rw silent at le))
  | inr asks ↦
      let deep : 1 ≤ n = ground arith in
      follow-calm n next (h.world rt.effects_done) h e _ a (d || is_discard e) _ rests (omega arith)
        p (ground arith) asks
        (λ rt' b d' q. run_calm n next h es rt' b d' rests q (ground arith) (ground arith))
]

depth-some : (p : Pending) (es fs : List Effect) → depth (some p) es ≡ depth (some p) fs
depth-some (Pending.launch r) es fs = refl
depth-some (Pending.settings plan) es fs = refl
depth-some (Pending.volume_tone plan) es fs = refl
depth-some Pending.wifi es fs = refl
depth-some Pending.network es fs = refl
depth-some (Pending.child active) es fs = refl

answers_child-quiet :
    (recovery : Option Recovery) (r : Option ChildResult) (e : Effect)
    → answers_child recovery r e ≡ true
    → quiet e ≡ false
answers_child-quiet none r Effect.launch h = refl
answers_child-quiet (some Recovery.controls) r Effect.scan_controls h = refl
answers_child-quiet (some Recovery.presentation) r Effect.open_presentation h = refl
answers_child-quiet (some Recovery.volume) r Effect.reload_volume h = refl
answers_child-quiet none r e h = absurd (cc h)
answers_child-quiet (some Recovery.controls) r e h = absurd (cc h)
answers_child-quiet (some Recovery.presentation) r e h = absurd (cc h)
answers_child-quiet (some Recovery.volume) r e h = absurd (cc h)

answers-quiet : (p : Pending) (e : Effect) → answers p e ≡ true → quiet e ≡ false
answers-quiet (Pending.settings plan) (Effect.settings_action q) h = refl
answers-quiet (Pending.volume_tone plan) Effect.volume_cue h = refl
answers-quiet Pending.wifi Effect.wifi_action h = refl
answers-quiet Pending.network Effect.network_action h = refl
answers-quiet (Pending.child active) e h = answers_child-quiet active.recovery active.result e h
answers-quiet (Pending.launch r) e h = absurd (cc h)
answers-quiet (Pending.settings plan) e h = absurd (cc h)
answers-quiet (Pending.volume_tone plan) e h = absurd (cc h)
answers-quiet Pending.wifi e h = absurd (cc h)
answers-quiet Pending.network e h = absurd (cc h)

run_awaiting :
    (n : ℕ) (next : Runtime → App → Bool → Event → Outcome) (h : Host) (p : Pending)
    (es : List Effect) (rt : Runtime) (a : App) (d : Bool)
    → Rests n next
    → a.pending ≡ some p
    → awaits p es ≡ true
    → depth (some p) [] ≤ n
    → 1 ≤ depth (some p) []
    → Ends none (run_effects next h rt a d es)
unfolding run_effects effect
run_awaiting n next h p [] rt a d rests q c le pos = absurd (cc c)
run_awaiting n next h p (e ∷ es) rt a d rests q c le pos = elim (Bool-cases (answers p e)) [
  | inl found ↦
      follow-Answered n (depth (some p) [] - 1) next (effect h e rt a) a (d || is_discard e) _ rests
        (omega arith)
        (carry_out-Answered p (h.world rt.effects_done) h e _ a (depth (some p) [] - 1) q found
          (let same = depth-some p [] (e ∷ []) in omega arith))
        (λ rt' b d' r.
          run_quiet next h none es rt' b d' r (let asks = answers-quiet p e found in ground arith))
  | inr other ↦
      follow_quiet next (effect h e rt a) a (d || is_discard e) _ none
        (carry_out-Silent (h.world rt.effects_done) h e _ a (ground arith))
        (λ rt'. run_awaiting n next h p es rt' a (d || is_discard e) rests q (ground arith) le pos)
]

depth_child-positive : (recovery : Option Recovery) → 1 ≤ depth_child recovery
depth_child-positive none = omega arith
depth_child-positive (some Recovery.controls) = omega arith
depth_child-positive (some Recovery.presentation) = omega arith
depth_child-positive (some Recovery.volume) = omega arith

-- Effects that fit come to rest.
pub run-Ends :
    (n : ℕ) (next : Runtime → App → Bool → Event → Outcome) (h : Host) (p : Option Pending)
    (es : List Effect) (rt : Runtime) (a : App) (d : Bool)
    → Rests n next
    → a.pending ≡ p
    → settled p es ≡ true
    → depth p es ≤ n
    → Ends (rest_of p) (run_effects next h rt a d es)
run-Ends n next h none es rt a d rests q c le = run_calm n next h es rt a d rests q c le
run-Ends n next h (some (Pending.launch r)) es rt a d rests q c le =
    run_quiet next h (some (Pending.launch r)) es rt a d q c
run-Ends n next h (some (Pending.settings plan)) es rt a d rests q c le =
    run_awaiting n next h (Pending.settings plan) es rt a d rests q c le (omega arith)
run-Ends n next h (some (Pending.volume_tone plan)) es rt a d rests q c le =
    run_awaiting n next h (Pending.volume_tone plan) es rt a d rests q c le (omega arith)
run-Ends n next h (some Pending.wifi) es rt a d rests q c le =
    run_awaiting n next h Pending.wifi es rt a d rests q c le (omega arith)
run-Ends n next h (some Pending.network) es rt a d rests q c le =
    run_awaiting n next h Pending.network es rt a d rests q c le (omega arith)
run-Ends n next h (some (Pending.child active)) es rt a d rests q c le =
    run_awaiting n next h (Pending.child active) es rt a d rests q c le
      (depth_child-positive active.recovery)

pub deeper : (m n : ℕ) (q : Option Pending) (r : Reduced) → m ≤ n → Fits m q r → Fits n q r
deeper m n q (Reduced.done a es) le (c, d, e) = (c, omega arith, e)
deeper m n q Reduced.out_of_order le f = absurd f
deeper m n q Reduced.no_menu_layout le f = absurd f
deeper m n q Reduced.panicked le f = absurd f

pub run_reduced-Ends :
    (n : ℕ) (next : Runtime → App → Bool → Event → Outcome) (h : Host) (q : Option Pending)
    (r : Reduced) (rt : Runtime) (d : Bool)
    → Rests n next
    → Fits n q r
    → Ends q (run_reduced next h rt d r)
unfolding run_reduced
run_reduced-Ends n next h q (Reduced.done a es) rt d rests (c, le, e) =
    subst (λ p. Ends p (run_effects next h rt a d es)) e
      (run-Ends n next h a.pending es rt a d rests refl c le)
run_reduced-Ends n next h q Reduced.out_of_order rt d rests f = absurd f
run_reduced-Ends n next h q Reduced.no_menu_layout rt d rests f = absurd f
run_reduced-Ends n next h q Reduced.panicked rt d rests f = absurd f

pub step-Rests : (n : ℕ) (h : Host) → Rests n (step n h)
unfolding step
step-Rests zero h rt a d e m lt f = absurd (omega arith)
step-Rests (suc n) h rt a d e m lt f =
    run_reduced-Ends n (step n h) h none (reduce a e rt.layout) rt d (step-Rests n h)
      (deeper m n none (reduce a e rt.layout) (omega arith) (f rt.layout))
