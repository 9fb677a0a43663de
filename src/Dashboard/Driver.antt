-- ===== src/Dashboard/Driver.antt =====
-- The loop around the reducer (`effect`, `step` and `iteration` of
-- native/src/dashboard/runtime.rs). The answers of the devices, of the child process and of the
-- files are a parameter: one record of them for each effect that is carried out.
pub mod Completion
pub mod Rest
pub mod Startup
pub mod Turn
use retrodeck.Prelude.{
  ℕ, suc, zero, ◌+◌, leb, ltb, length, take, Bool, true, false, not, ◌&&◌, ◌||◌, List, [], ◌∷◌,
  Option, none, some, ◌==◌, if◌then◌else◌,
}
use retrodeck.Prelude.Decimal.{bytes}
use retrodeck.Prelude.Result.{Result, ok, err}
use retrodeck.Input.{TouchReport, ControlReport}
use retrodeck.Policy.{Game, LaunchPlan, LaunchConfig, launch_plan}
use retrodeck.Menu.{MenuLayout}
use retrodeck.Menu
use retrodeck.Dashboard.{
  View, Cue, ChildResult, NetworkStatus, ActiveLaunch, Pending, Effect, Event, App,
}
use retrodeck.Dashboard.Commands.{collect_actions}
use retrodeck.Dashboard.Operations.{saturating_add}
use retrodeck.Dashboard.Launches.{LaunchError, pending_application}
use retrodeck.Dashboard.Steps.{Reduced}
use retrodeck.Dashboard.Reduce.{reduce}

-- What `play_tone_sequence` comes to.
pub data PlayOutcome : Type 0 where
  started busy not_played : PlayOutcome

-- What `open_presentation` finds: a widget or a frame buffer that is open already or that it opens,
-- or neither.
pub data Presentation : Type 0 where
  widget_is_open widget_opened framebuffer_is_open framebuffer_opened no_presentation : Presentation

-- What the effect that is carried out finds: whether drawing, presenting, scanning and opening work,
-- and what a child process, the helper of the Wi-Fi editor and the files come to.
pub record Answers : Type 0 where
  pub works : Bool
  pub audio : PlayOutcome
  pub audio_active : Bool
  pub presentation : Presentation
  pub touch_opened : Bool
  pub setting_saved : Bool
  pub wifi_saved : Bool
  pub wifi_write_failed : Bool
  pub network : NetworkStatus
  pub child : Option ChildResult
  pub clock : ℕ
  pub volume : Option ℕ

pub record Host : Type 0 where
  pub world : ℕ → Answers
  pub config : LaunchConfig
  pub volume_path : List ℕ
  pub brightness_path : List ℕ
  pub brightness_max_path : List ℕ
  pub brightness_state_path : List ℕ
  pub keymap_path : List ℕ

-- The runtime: what it owns, the sound, the layout of the last menu drawn, and the time; last how
-- many effects were carried out, which stands for the state of the world.
pub record Runtime : Type 0 where
  pub widget : Bool
  pub presentation_owned : Bool
  pub touch_owned : Bool
  pub controls_owned : Bool
  pub audio_owned : Bool
  pub sound_active : Bool
  pub input_until : ℕ
  pub brightness_maximum : Option ℕ
  pub default_volume : ℕ
  pub layout : Option MenuLayout
  pub running : Bool
  pub rescan : Bool
  pub now : ℕ
  pub effects_done : ℕ

pub data Reply : Type 0 where
  silent : Runtime → Reply
  completes : Runtime → Event → Reply
  failed unplanned : Reply

pub data Outcome : Type 0 where
  stepped : Runtime → App → Bool → Outcome
  failed unplanned out_of_order no_menu_layout panicked out_of_fuel : Outcome

menu_drawn : Option MenuLayout → Option (Option MenuLayout)
menu_drawn none = none
menu_drawn (some l) = some (some l)

-- The layout that drawing a view leaves; nothing where drawing panics.
drawn : View → App → Option (Option MenuLayout)
unfolding menu_drawn
drawn View.dashboard a = menu_drawn (Menu.layout a.games a.system a.position)
drawn v a = some none

rendered : Option (Option MenuLayout) → Runtime → Reply
rendered none rt = Reply.unplanned
rendered (some l) rt = Reply.silent (record rt { layout = l })

if_works : Bool → Reply → Reply
if_works true r = r
if_works false r = Reply.failed

reconnected : Bool → Runtime → Reply
reconnected true rt = Reply.completes (record rt { touch_owned = true }) Event.touch_reconnected
reconnected false rt = Reply.silent rt

-- The milliseconds that the tones of a cue take together.
cue_duration : Cue → ℕ
cue_duration Cue.volume = 120
cue_duration Cue.previous = 35
cue_duration Cue.next = 35
cue_duration Cue.confirm = 55
cue_duration Cue.back = 55

played : PlayOutcome → ℕ → Cue → Runtime → Runtime × Bool
unfolding cue_duration saturating_add
played PlayOutcome.started started_at c rt = (
  record rt {
    audio_owned = true;
    sound_active = true;
    input_until = saturating_add (saturating_add started_at (cue_duration c)) 60;
  },
  true,
)
played PlayOutcome.busy started_at c rt = (record rt { sound_active = true }, true)
played PlayOutcome.not_played started_at c rt = (rt, false)

cue : Answers → Cue → ℕ → Runtime → Runtime × Bool
unfolding played
cue w c volume rt = if volume == 0 then (rt, true) else played w.audio w.clock c rt

stop_sound : Runtime → Runtime
stop_sound rt =
    if rt.audio_owned
    then record rt { audio_owned = false; sound_active = false; input_until = 0 }
    else rt

reap_sound : Bool → Runtime → Runtime
reap_sound active rt = record rt {
  sound_active = active;
  audio_owned = if not active && leb rt.input_until rt.now then false else rt.audio_owned;
}

-- `none` where neither a widget nor a frame buffer can be opened.
open_presentation : Presentation → Runtime → Option Runtime
open_presentation Presentation.widget_is_open rt = some (record rt { widget = true })
open_presentation Presentation.widget_opened rt =
    some (record rt { widget = true; presentation_owned = true })
open_presentation Presentation.framebuffer_is_open rt = some (record rt { widget = false })
open_presentation Presentation.framebuffer_opened rt =
    some (record rt { widget = false; presentation_owned = true })
open_presentation Presentation.no_presentation rt = none

presentation_reply : Option Runtime → Reply
presentation_reply (some rt) = Reply.completes rt Event.presentation_opened
presentation_reply none = Reply.failed

wifi_failure : Bool → Option (List ℕ)
unfolding bytes
wifi_failure true = some (bytes "WIFI PROFILE WRITE FAILED")
wifi_failure false = none

-- Unplanned where the assertion of `launch_plan` on the volume fails, at which the code panics.
prepared : Result LaunchError Game → Host → Runtime → App → Reply
prepared (err e) h rt a = Reply.failed
prepared (ok g) h rt a =
    elim (launch_plan g a.settings.volume a.settings.keymap rt.widget (some h.volume_path)
      h.config) [ some p ↦ Reply.completes rt (Event.prepared g p) | none ↦ Reply.unplanned ]

-- The error where no launch is active, where the frame buffer is another program's, or where the
-- child cannot be run.
launched : Option Pending → Option ChildResult → Runtime → ℕ → Reply
launched (some (Pending.child active)) (some r) rt clock =
    if not rt.widget && not rt.presentation_owned
    then Reply.failed
    else Reply.completes (record rt { now = clock })
        (Event.child_returned r (not active.plan.touch_supervision))
launched p r rt clock = Reply.failed

shut_down : Runtime → Runtime
unfolding stop_sound
shut_down rt = record (stop_sound rt) {
  controls_owned = false;
  touch_owned = false;
  presentation_owned = false;
  widget = false;
  layout = none;
  running = false;
}

-- An effect, with what it finds.
carry_out : Answers → Host → Effect → Runtime → App → Reply
unfolding drawn rendered if_works reconnected wifi_failure prepared pending_application launched
    shut_down cue stop_sound reap_sound open_presentation presentation_reply
carry_out w h Effect.render rt a = if_works w.works (rendered (drawn a.view a) rt)
carry_out w h Effect.present rt a = if_works w.works (Reply.silent rt)
carry_out w h (Effect.cue c) rt a = Reply.silent (cue w c a.settings.volume rt).0
carry_out w h Effect.volume_cue rt a =
    let (rt', sounded) = cue w Cue.volume a.settings.volume rt in
    Reply.completes rt' (Event.volume_tone_result sounded)
carry_out w h Effect.stop_sound rt a = Reply.silent (stop_sound rt)
carry_out w h Effect.finish_sound rt a = Reply.silent (stop_sound rt)
carry_out w h Effect.reap_sound rt a = Reply.silent (reap_sound w.audio_active rt)
carry_out w h Effect.scan_controls rt a =
    if_works w.works
      (Reply.completes (record rt { controls_owned = true }) (Event.controls_rescanned rt.now))
carry_out w h Effect.close_controls rt a = Reply.silent (record rt { controls_owned = false })
carry_out w h Effect.reconnect_touch rt a = reconnected w.touch_opened rt
carry_out w h Effect.open_presentation rt a =
    presentation_reply (open_presentation w.presentation rt)
carry_out w h (Effect.settings_action plan) rt a =
    Reply.completes rt (Event.settings_result w.setting_saved)
carry_out w h Effect.wifi_action rt a =
    Reply.completes rt (Event.wifi_result w.wifi_saved (wifi_failure w.wifi_write_failed))
carry_out w h Effect.network_action rt a = Reply.completes rt (Event.network_result w.network)
carry_out w h Effect.prepare_launch rt a = prepared (pending_application a) h rt a
carry_out w h Effect.launch rt a = launched a.pending w.child rt w.clock
carry_out w h Effect.reload_volume rt a = Reply.completes rt (Event.child_complete w.volume)
carry_out w h Effect.stop_loop rt a = Reply.silent (shut_down rt)
carry_out w h e rt a = Reply.silent rt

pub effect : Host → Effect → Runtime → App → Reply
unfolding carry_out
effect h e rt a =
    carry_out (h.world rt.effects_done) h e (record rt { effects_done = rt.effects_done + 1 }) a

is_discard : Effect → Bool
is_discard Effect.discard_touch = true
is_discard e = false

-- `?` on the outcome of a step.
pub then_run : Outcome → (Runtime → App → Bool → Outcome) → Outcome
then_run (Outcome.stepped rt a discard) k = k rt a discard
then_run o k = o

-- A completion is handled before the next effect.
follow :
    (Runtime → App → Bool → Event → Outcome)
    → Reply
    → App
    → Bool
    → (Runtime → App → Bool → Outcome)
    → Outcome
unfolding then_run
follow next (Reply.silent rt) a discard k = k rt a discard
follow next (Reply.completes rt e) a discard k = then_run (next rt a discard e) k
follow next Reply.failed a discard k = Outcome.failed
follow next Reply.unplanned a discard k = Outcome.unplanned

pub run_effects :
    (Runtime → App → Bool → Event → Outcome) → Host → Runtime → App → Bool → List Effect → Outcome
unfolding effect is_discard follow
run_effects next h rt a discard [] = Outcome.stepped rt a discard
run_effects next h rt a discard (e ∷ effects) =
    follow next (effect h e rt a) a (discard || is_discard e)
      (λ rt' a' discard'. run_effects next h rt' a' discard' effects)

pub run_reduced :
    (Runtime → App → Bool → Event → Outcome) → Host → Runtime → Bool → Reduced → Outcome
unfolding run_effects
run_reduced next h rt discard (Reduced.done a effects) = run_effects next h rt a discard effects
run_reduced next h rt discard Reduced.out_of_order = Outcome.out_of_order
run_reduced next h rt discard Reduced.no_menu_layout = Outcome.no_menu_layout
run_reduced next h rt discard Reduced.panicked = Outcome.panicked

-- The steps call each other through the completions; the fuel bounds how deep.
pub step : ℕ → Host → Runtime → App → Bool → Event → Outcome
unfolding run_reduced reduce
step zero h rt a discard e = Outcome.out_of_fuel
step (suc fuel) h rt a discard e = run_reduced (step fuel h) h rt discard (reduce a e rt.layout)

-- What an iteration meets: the times before and after its poll, whether the poll works, its answer
-- (`InputDispatch`), the reports in the queues of the touchscreen and the controls, whether
-- presenting works, and whether a signal or the display asks for the end.
pub record Poll : Type 0 where
  pub began_at : ℕ
  pub ended_at : ℕ
  pub dispatched : Bool
  pub is_ready : Bool
  pub control_count : ℕ
  pub touch_count : ℕ
  pub touch_lost : Bool
  pub rescan : Bool
  pub shutdown : Bool
  pub refresh : Bool
  pub reports : List ControlReport
  pub touches : List TouchReport
  pub presents : Bool
  pub signalled : Bool
  pub display_closed : Bool

touches_step : ℕ → Host → List TouchReport → Runtime → App → Bool → Outcome
unfolding step then_run
touches_step fuel h [] rt a discard = Outcome.stepped rt a discard
touches_step fuel h (t ∷ touches) rt a discard =
    then_run (step fuel h rt a discard (Event.touch rt.now t))
      (λ rt' a' discard'. touches_step fuel h touches rt' a' discard')

launch_pending : Option Pending → ℕ → Host → Runtime → App → Bool → Outcome
unfolding step effect follow
launch_pending (some (Pending.launch r)) fuel h rt a discard =
    follow (step fuel h) (effect h Effect.prepare_launch rt a) a discard
      (λ rt' a' discard'. Outcome.stepped rt' a' discard')
launch_pending p fuel h rt a discard = Outcome.stepped rt a discard

lose_touch : Bool → ℕ → Host → Runtime → App → Bool → Outcome
unfolding step
lose_touch true fuel h rt a discard =
    step fuel h (record rt { touch_owned = false }) a discard Event.touch_lost
lose_touch false fuel h rt a discard = Outcome.stepped rt a discard

take_touches : Bool → ℕ → Host → Poll → Runtime → App → Bool → Outcome
unfolding touches_step
take_touches true fuel h p rt a discard =
    touches_step fuel h (take p.touch_count p.touches) rt a discard
take_touches false fuel h p rt a discard = Outcome.stepped rt a discard

is_quarantined : Runtime → Bool
is_quarantined rt = rt.sound_active || ltb rt.now rt.input_until

handle_input : Bool → ℕ → Host → Poll → Runtime → App → Bool → Outcome
unfolding lose_touch take_touches launch_pending step then_run collect_actions is_quarantined
handle_input false fuel h p rt a discard = Outcome.stepped rt a discard
handle_input true fuel h p rt a discard =
    let (gamepad, keyboard) = collect_actions p.reports in
    then_run (lose_touch p.touch_lost fuel h rt a discard) (λ rt1 a1 d1.
      then_run
        (step fuel h rt1 a1 d1 (Event.controls rt1.now gamepad keyboard (is_quarantined rt1)))
        (λ rt2 a2 d2.
          then_run (take_touches (not p.touch_lost && not d2) fuel h p rt2 a2 d2)
            (λ rt3 a3 d3. launch_pending a3.pending fuel h rt3 a3 d3)))

-- Where the poll fails, a queue ends early or holds another number of reports than the poll counted,
-- or the frame that was asked for cannot be presented.
poll_fails : Poll → Bool
poll_fails p =
    not p.dispatched
    || ltb (length p.touches) p.touch_count
    || not (length p.reports == p.control_count)
    || (p.refresh && not p.presents)

-- The end that a signal or the display asks for.
finish : Poll → Runtime → App → Bool → Outcome
unfolding shut_down
finish p rt a discard =
    if p.shutdown || p.signalled || (rt.widget && p.display_closed)
    then Outcome.stepped (shut_down rt) a discard
    else Outcome.stepped rt a discard

after_poll : ℕ → Host → Poll → Runtime → App → Bool → Outcome
unfolding poll_fails step then_run handle_input finish
after_poll fuel h p rt a discard =
    if poll_fails p
    then Outcome.failed
    else then_run
        (step fuel h (record rt { now = p.ended_at; rescan = rt.rescan || p.rescan }) a discard
          (Event.tick p.ended_at))
        (λ rt1 a1 d1.
          then_run (handle_input p.is_ready fuel h p rt1 a1 d1) (λ rt2 a2 d2. finish p rt2 a2 d2))

pub iteration : ℕ → Host → Poll → Runtime → App → Outcome
unfolding step then_run after_poll
iteration fuel h p rt a =
    then_run
      (step fuel h (record rt { now = p.began_at; rescan = false }) a false
        (Event.begin p.began_at rt.widget rt.rescan))
      (λ rt1 a1 d1. after_poll fuel h p rt1 a1 d1)

-- The loop of `main`, over what its turns meet.
pub run_loop : ℕ → Host → List Poll → Runtime → App → Outcome
unfolding iteration then_run
run_loop fuel h [] rt a = Outcome.stepped rt a false
run_loop fuel h (p ∷ polls) rt a =
    let next = then_run (iteration fuel h p rt a) (λ rt' a' d. run_loop fuel h polls rt' a') in
    if rt.running then next else Outcome.stepped rt a false
