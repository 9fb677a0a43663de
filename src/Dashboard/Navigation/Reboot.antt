-- ===== src/Dashboard/Navigation/Reboot.antt =====
-- The reboot entry, which wants two requests (`request_game` of native/src/dashboard/app.rs).
use retrodeck.Prelude.{
  ℕ, ◌+◌, ◌<◌, ◌≡◌, ◌≢◌, ◌↔◌, refl, sym, ap, ◌∙◌, subst, Bool, true, false, ◌&&◌, List, [], none,
  some, ltb, length, get_elem?, arith, Bool-cases, inl, inr,
}
use retrodeck.Prelude.Decimal.{text_eq}
use retrodeck.Policy.{Game}
use retrodeck.Dashboard.{View, Command, App}
use retrodeck.Dashboard.Commands.{is_settings}
use retrodeck.Dashboard.Operations.{
  saturating_add, set_status, set_status_if, set_view, clear_all_pressed, cancel_reboot,
  reboot_confirmation, indices, is_reboot, launch_of, request_game, request_of, request_reboot,
}
use retrodeck.Dashboard.Navigation

request_game-reboot :
    (a : App) (i now : ℕ) (batch : Bool) (g : Game)
    → get_elem? a.games i ≡ some g
    → is_reboot g ≡ true
    → request_game a i now batch
      ≡ request_reboot (ltb 0 a.reboot_deadline && ltb now a.reboot_deadline) a i now batch
unfolding request_game request_of
request_game-reboot a i now batch g h k = rw (h, k) refl

launched_iff :
    (armed : Bool) (a : App) (i now : ℕ) (batch : Bool)
    → a.pending ≡ none
    → ((request_reboot armed a i now batch).0.pending ≡ some (launch_of i batch)) ↔ (armed ≡ true)
unfolding request_reboot set_status
launched_iff true a i now batch h = (λ k. refl, λ k. refl)
launched_iff false a i now batch h = (λ k. absurd (cc (h, k)), λ k. absurd (cc k))

-- A first request of the reboot entry launches nothing, and a second one launches the reboot exactly
-- if it comes less than four seconds after the first, on a clock below 2^64 - 4001 milliseconds.
pub request_game-twice :
    (a : App) (i t u : ℕ) (batch : Bool) (g : Game)
    → a.pending ≡ none
    → a.reboot_deadline ≡ 0
    → get_elem? a.games i ≡ some g
    → is_reboot g ≡ true
    → t + 4000 < 18446744073709551615
    → ((request_game a i t batch).0.pending ≡ none)
      × (((request_game (request_game a i t batch).0 i u batch).0.pending
            ≡ some (launch_of i batch))
          ↔ (u < t + 4000))
unfolding request_reboot set_status saturating_add
request_game-twice a i t u batch g idle off found reboot early =
    let first : (ltb 0 a.reboot_deadline && ltb t a.reboot_deadline) ≡ false = ground arith in
    let armed =
      request_game-reboot a i t batch g found reboot
      ∙ ap (λ b. request_reboot b a i t batch) first in
    let b = (request_reboot false a i t batch).0 in
    let within : (ltb 0 b.reboot_deadline && ltb u b.reboot_deadline) ≡ ltb u (t + 4000) =
      ground arith in
    let second =
      request_game-reboot b i u batch g found reboot
      ∙ ap (λ x. request_reboot x b i u batch) within in
    let (to, from) = launched_iff (ltb u (t + 4000)) b i u batch idle in
    (
      ap (λ p. p.0.pending) armed ∙ idle,
      subst
          (λ x.
            ((request_game x.0 i u batch).0.pending ≡ some (launch_of i batch)) ↔ (u < t + 4000))
          (sym armed)
          (subst (λ y. (y.0.pending ≡ some (launch_of i batch)) ↔ (u < t + 4000)) (sym second)
            (λ k. (let armed_at = to k in ground arith), λ k. from (ground arith))),
    )

set_status_if-deadline :
    (b : Bool) (a : App) (status : List ℕ)
    → (set_status_if b a status).reboot_deadline ≡ a.reboot_deadline
unfolding set_status_if set_status
set_status_if-deadline true a status = refl
set_status_if-deadline false a status = refl

cancelled : (a : App) → (cancel_reboot a).reboot_deadline ≡ 0
unfolding cancel_reboot
cancelled a =
    set_status_if-deadline (text_eq a.status reboot_confirmation) (record a { reboot_deadline = 0 })
      []

back_from-deadline :
    (v : View) (a : App) → (Navigation.back_from v a).reboot_deadline ≡ a.reboot_deadline
unfolding Navigation.back_from set_view set_status clear_all_pressed
back_from-deadline View.credits a = refl
back_from-deadline View.settings a = refl
back_from-deadline View.wifi a = refl
back_from-deadline View.dashboard a = refl

toggle_settings-deadline :
    (b : Bool) (a : App) → (Navigation.toggle_settings b a).0.reboot_deadline ≡ a.reboot_deadline
unfolding Navigation.toggle_settings Navigation.select_first set_view set_status clear_all_pressed
toggle_settings-deadline true a = refl
toggle_settings-deadline false a = refl

move_in_menu-deadline :
    (backwards : Bool) (count : ℕ) (a : App)
    → (Navigation.move_in_menu backwards count a).0.reboot_deadline ≡ a.reboot_deadline
unfolding Navigation.move_in_menu set_status
move_in_menu-deadline backwards count a = elim (Bool-cases (ltb 0 count)) [
  | inl h ↦ rw h refl
  | inr h ↦ rw h refl
]

move_on-deadline :
    (backwards : Bool) (a : App) → (Navigation.move_on backwards a).0.reboot_deadline ≡ 0
unfolding Navigation.move_on Navigation.move_in_settings set_status
move_on-deadline backwards a =
    let b = cancel_reboot a in
    elim (Bool-cases (is_settings b.view)) [
      | inl h ↦ rw h (cancelled a)
      | inr h ↦ rw h (move_in_menu-deadline backwards (length (indices b)) b ∙ cancelled a)
    ]

-- Every command but the confirmation takes back a first request of the reboot.
pub run_command-disarms :
    (c : Command) (a : App) (now : ℕ)
    → c ≢ Command.confirm
    → (Navigation.run_command a c now).0.reboot_deadline ≡ 0
unfolding Navigation.run_command Navigation.go_back Navigation.change_system set_status
run_command-disarms Command.back a now h =
    back_from-deadline (cancel_reboot a).view (cancel_reboot a) ∙ cancelled a
run_command-disarms Command.settings a now h =
    toggle_settings-deadline (is_settings (cancel_reboot a).view) (cancel_reboot a) ∙ cancelled a
run_command-disarms Command.system_previous a now h = cancelled a
run_command-disarms Command.system_next a now h = cancelled a
run_command-disarms Command.previous a now h = move_on-deadline true a
run_command-disarms Command.next a now h = move_on-deadline false a
run_command-disarms Command.confirm a now h = absurd (h refl)
