-- ===== src/Dashboard.antt =====
-- The dashboard application: native/src/dashboard/app.rs. This file has the data of the reducer;
-- the children have the commands, the reducer's parts, the reducer, the loop of
-- native/src/dashboard/runtime.rs that feeds it, and their properties.
pub mod Commands
pub mod Credits
pub mod Operations
pub mod Navigation
pub mod Launches
pub mod Steps
pub mod Protocol
pub mod Reduce
pub mod Driver
mod Examples
use retrodeck.Prelude.{ℕ, Bool, List, Option}
use retrodeck.Prelude.Int.{ℤ}
use retrodeck.Input.{TouchReport}
use retrodeck.Policy.{System, Game, LaunchPlan, ControllerGuard}
use retrodeck.Menu
use retrodeck.Settings
use retrodeck.Wifi

pub data View : Type 0 where
  dashboard settings wifi credits : View

pub data Cue : Type 0 where
  volume previous next confirm back : Cue

pub data Command : Type 0 where
  back settings system_previous system_next previous next confirm : Command

pub data Action : Type 0 where
  back settings system_previous system_next left right up down confirm : Action

pub data GameIndex : Type 0 where
  catalog : ℕ → GameIndex
  terminal : GameIndex

pub record LaunchRequest : Type 0 where
  pub game : GameIndex
  pub mode : Option (List ℕ)
  pub touch_batch : Bool

pub data Recovery : Type 0 where
  controls presentation volume : Recovery

-- `ChildResult` of native/src/process.rs.
pub record ChildResult : Type 0 where
  pub started : Bool
  pub exited_for_touch : Bool
  pub shutdown_requested : Bool
  pub exit_code : Option ℤ
  pub signal : Option ℤ
  pub error : Option (List ℕ)

-- `NetworkStatus` of native/src/network.rs.
pub record NetworkStatus : Type 0 where
  pub ssid : List ℕ
  pub wlan_ipv4 : List ℕ
  pub wireguard_ipv4 : List ℕ
  pub selector : List ℕ

pub record ActiveLaunch : Type 0 where
  pub game : Game
  pub plan : LaunchPlan
  pub result : Option ChildResult
  pub recovery : Option Recovery

pub data Pending : Type 0 where
  launch : LaunchRequest → Pending
  settings volume_tone : Settings.Effect → Pending
  wifi network : Pending
  child : ActiveLaunch → Pending

pub data Effect : Type 0 where
  render present volume_cue stop_sound finish_sound reap_sound scan_controls close_controls
        reconnect_touch open_presentation discard_touch controller_suspended controller_resumed
        wifi_action network_action prepare_launch launch reload_volume stop_loop :
      Effect
  cue : Cue → Effect
  settings_action : Settings.Effect → Effect

pub data Event : Type 0 where
  begin : ℕ → Bool → Bool → Event
  tick : ℕ → Event
  controls : ℕ → List Action → List Action → Bool → Event
  touch : ℕ → TouchReport → Event
  touch_lost touch_reconnected presentation_opened : Event
  settings_result volume_tone_result : Bool → Event
  wifi_result : Bool → Option (List ℕ) → Event
  network_result : NetworkStatus → Event
  prepared : Game → LaunchPlan → Event
  child_returned : ChildResult → Bool → Event
  controls_rescanned : ℕ → Event
  child_complete : Option ℕ → Event

-- The credits screen of native/src/dashboard/credits.rs; `elapsed_ms` and the crawl, which only its
-- drawing reads, are left out.
pub data CreditsTarget : Type 0 where
  close : CreditsTarget

pub record CreditsState : Type 0 where
  pub pressed_target : Option CreditsTarget

pub record App : Type 0 where
  pub games : List Game
  pub view : View
  pub system : System
  pub position : ℕ
  pub status : List ℕ
  pub pressed : Option Menu.Target
  pub settings : Settings.State
  pub wifi : Wifi.State
  pub credits : CreditsState
  pub network : NetworkStatus
  pub reduced_motion : Bool
  pub credits_started_at : ℕ
  pub credits_rendered_at : ℕ
  pub guard : ControllerGuard
  pub last_scan : Option ℕ
  pub touch_connected : Bool
  pub last_touch_reconnect : ℕ
  pub network_refreshed_at : ℕ
  pub reboot_deadline : ℕ
  pub pending : Option Pending
