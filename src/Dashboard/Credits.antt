-- ===== src/Dashboard/Credits.antt =====
-- The touch of the credits screen (native/src/dashboard/credits.rs).
use retrodeck.Prelude.{Bool, true, false, ◌&&◌, Option, none, some, if◌then◌else◌}
use retrodeck.Prelude.Int.{ℤ, pos, leb_ℤ, ltb_ℤ}
use retrodeck.Dashboard.{CreditsTarget, CreditsState}

pub data CreditsEffect : Type 0 where
  close : CreditsEffect

abbrev in_range : ℤ → ℤ → ℤ → Bool
in_range lo hi v = leb_ℤ lo v && ltb_ℤ v hi

pub target_at : ℤ → ℤ → Option CreditsTarget
target_at x y =
    if in_range (pos 1212) (pos 1268) x && in_range (pos 12) (pos 68) y
    then some CreditsTarget.close
    else none

-- `old == target && target == Some(Target::Close)`
closes : Option CreditsTarget → Option CreditsTarget → Option CreditsEffect
closes (some CreditsTarget.close) (some CreditsTarget.close) = some CreditsEffect.close
closes old target = none

press : CreditsState → Option CreditsTarget → Bool → CreditsState
press c target true = record c { pressed_target = target }
press c target false = c

release : CreditsState → Option CreditsTarget → Bool → CreditsState × Option CreditsEffect
unfolding closes
release c target true = (record c { pressed_target = none }, closes c.pressed_target target)
release c target false = (c, none)

unfoldable pub touch : CreditsState → ℤ → ℤ → Bool → Bool → CreditsState × Option CreditsEffect
unfolding press release target_at
touch c x y pressed released = let t = target_at x y in release (press c t pressed) t released

pub clear_pressed : CreditsState → CreditsState
clear_pressed c = record c { pressed_target = none }
