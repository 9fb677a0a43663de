-- ===== src/Dashboard/Launches.antt =====
-- What the dashboard launches and says of it (`pending_application`, `terminal_title` and
-- `child_status` of native/src/dashboard/app.rs).
use retrodeck.Prelude.{
  ℕ, suc, Bool, true, false, not, List, [], ◌∷◌, ◌++◌, Option, none, some, ◌==◌, if◌then◌else◌,
  get_elem?,
}
use retrodeck.Prelude.Decimal.{bytes, text_eq, decimal}
use retrodeck.Prelude.Int.{ℤ, pos, negsuc}
use retrodeck.Prelude.Result.{Result, ok, err}
use retrodeck.Policy.{Game, LaunchKind, LaunchPlan, builtins}
use retrodeck.Dashboard.{GameIndex, ActiveLaunch, ChildResult, Pending, App}

-- The errors of `pending_application`.
pub data LaunchError : Type 0 where
  no_pending_launch invalid_launch_index terminal_application_missing : LaunchError

find_id : List ℕ → List Game → Option Game
find_id id [] = none
find_id id (g ∷ games) = if text_eq g.id id then some g else find_id id games

ok_or : Option Game → LaunchError → Result LaunchError Game
ok_or none e = err e
ok_or (some g) e = ok g

requested_game : GameIndex → List Game → Result LaunchError Game
unfolding ok_or find_id bytes
requested_game (GameIndex.catalog index) games =
    ok_or (get_elem? games index) LaunchError.invalid_launch_index
requested_game GameIndex.terminal games =
    ok_or (find_id (bytes "terminal") builtins) LaunchError.terminal_application_missing

with_mode : Option (List ℕ) → Result LaunchError Game → Result LaunchError Game
with_mode none r = r
with_mode (some mode) (err e) = err e
with_mode (some mode) (ok g) = ok (record g { terminal_mode = some mode })

application_of : Option Pending → List Game → Result LaunchError Game
unfolding requested_game with_mode
application_of (some (Pending.launch r)) games = with_mode r.mode (requested_game r.game games)
application_of p games = err LaunchError.no_pending_launch

unfoldable pub pending_application : App → Result LaunchError Game
unfolding application_of
pending_application a = application_of a.pending a.games

title_of : List (List ℕ) → List ℕ
unfolding bytes
title_of [] = bytes "TERMINAL"
title_of (mode ∷ rest) =
    if text_eq mode (bytes "lua")
    then bytes "LUA REPL"
    else if text_eq mode (bytes "lisp")
    then bytes "LISP REPL"
    else if text_eq mode (bytes "python")
    then bytes "PYTHON REPL"
    else if text_eq mode (bytes "scheme")
    then bytes "SCHEME REPL"
    else bytes "TERMINAL"

unfoldable pub terminal_title : LaunchPlan → List ℕ
unfolding title_of
terminal_title p = title_of p.arguments

-- `{code}` of an `i32`.
decimal_ℤ : ℤ → List ℕ
unfolding decimal
decimal_ℤ (pos n) = decimal n
decimal_ℤ (negsuc n) = b'-' ∷ decimal (suc n)

abbrev pub is_reboot_kind : LaunchKind → Bool
is_reboot_kind LaunchKind.reboot = true
is_reboot_kind k = false

abbrev pub is_terminal_kind : LaunchKind → Bool
is_terminal_kind LaunchKind.terminal = true
is_terminal_kind k = false

-- `error.is_some_and(|s| !s.is_empty())`
says : Option (List ℕ) → Bool
says none = false
says (some []) = false
says (some (c ∷ text)) = true

signal_status : Option ℤ → Bool → List ℕ → List ℕ
unfolding decimal_ℤ bytes
signal_status (some signal) true title =
    bytes "REBOOT STOPPED (SIGNAL " ++ decimal_ℤ signal ++ bytes ")"
signal_status (some signal) false title =
    title ++ bytes " STOPPED (SIGNAL " ++ decimal_ℤ signal ++ bytes ")"
signal_status none true title = bytes "REBOOT STOPPED"
signal_status none false title = title ++ bytes " STOPPED"

-- A process that gave a status, other than 0 or 0.
exited : Bool → ℤ → Bool → List ℕ → List ℕ
unfolding decimal_ℤ bytes
exited true code true title = bytes "REBOOT COMMAND EXITED"
exited true code false title = title ++ bytes " EXITED"
exited false code true title = bytes "REBOOT FAILED (STATUS " ++ decimal_ℤ code ++ bytes ")"
exited false code false title = title ++ bytes " EXITED (STATUS " ++ decimal_ℤ code ++ bytes ")"

is_zero : ℤ → Bool
is_zero (pos n) = n == 0
is_zero (negsuc n) = false

exit_status : Option ℤ → Option ℤ → Bool → List ℕ → List ℕ
unfolding signal_status exited is_zero
exit_status (some code) signal reboot title = exited (is_zero code) code reboot title
exit_status none signal reboot title = signal_status signal reboot title

result_status : ChildResult → Bool → Bool → List ℕ → List ℕ
unfolding exit_status says bytes
result_status r reboot terminal title =
    if says r.error
    then (if terminal
        then title ++ bytes " ERROR - CHECK LOG"
        else if reboot
        then bytes "REBOOT ERROR - CHECK LOG"
        else bytes "GAME ERROR - CHECK LOG")
    else if not r.started
    then (if terminal
        then title ++ bytes " DID NOT START"
        else if reboot
        then bytes "REBOOT DID NOT START"
        else bytes "GAME DID NOT START")
    else if r.exited_for_touch
    then (if reboot then bytes "REBOOT CANCELLED" else bytes "RETURNED FROM " ++ title)
    else exit_status r.exit_code r.signal reboot title

unfoldable pub status_of : ActiveLaunch → Option ChildResult → Option (List ℕ)
unfolding result_status terminal_title
status_of l none = none
status_of l (some r) =
    let terminal = is_terminal_kind l.plan.kind in
    some (
      result_status r (is_reboot_kind l.plan.kind) terminal
        (if terminal then terminal_title l.plan else l.game.title))

-- `none` where the result is missing, at which the code panics.
unfoldable pub child_status : ActiveLaunch → Option (List ℕ)
unfolding status_of
child_status l = status_of l l.result
