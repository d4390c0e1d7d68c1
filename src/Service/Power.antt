-- ===== src/Service/Power.antt =====
-- The power events of crates/service/src/message.rs: settings, their payloads and how they are read
-- from what the kernel hands over.
use msft.Service.Guid.{Guid, eq}
use msft.Prelude.{ℕ, Bool, Option, none, some, not, ◌==◌, if◌then◌else◌}

pub data PowerCondition : Type 0 where
  ac dc hot : PowerCondition

pub data DisplayState : Type 0 where
  off on dim : DisplayState

pub data UserPresence : Type 0 where
  present inactive : UserPresence

pub data PowerschemePersonality : Type 0 where
  min max typical : PowerschemePersonality

pub data LidswitchState : Type 0 where
  closed opened : LidswitchState

-- `FromPrimitive::from_u32`, by the discriminants that the types give.
unfoldable pub condition_from_u32 : ℕ → Option PowerCondition
condition_from_u32 n =
    if n == 0 then some ac else if n == 1 then some dc else if n == 2 then some hot else none

unfoldable pub display_from_u32 : ℕ → Option DisplayState
display_from_u32 n =
    if n == 0 then some off else if n == 1 then some on else if n == 2 then some dim else none

unfoldable pub presence_from_u32 : ℕ → Option UserPresence
presence_from_u32 n = if n == 0 then some present else if n == 2 then some inactive else none

unfoldable pub lid_from_u32 : ℕ → Option LidswitchState
lid_from_u32 n = if n == 0 then some closed else if n == 1 then some opened else none

pub data PowerBroadcastSetting : Type 0 where
  acdc_power_source : PowerCondition → PowerBroadcastSetting
  battery_percentage_remaining : ℕ → PowerBroadcastSetting
  console_display_state : DisplayState → PowerBroadcastSetting
  global_user_presence : UserPresence → PowerBroadcastSetting
  idle_background_task : PowerBroadcastSetting
  lidswitch_state_change : LidswitchState → PowerBroadcastSetting
  monitor_power_on : Bool → PowerBroadcastSetting
  power_saving_status : Bool → PowerBroadcastSetting
  powerscheme_personality : PowerschemePersonality → PowerBroadcastSetting
  session_display_status : DisplayState → PowerBroadcastSetting
  session_user_presence : UserPresence → PowerBroadcastSetting
  system_away_mode : Bool → PowerBroadcastSetting

pub data PowerSettingChange : Type 0 where
  power_status_change : PowerSettingChange
  resume_automatic : PowerSettingChange
  resume_suspend : PowerSettingChange
  suspend : PowerSettingChange
  power_setting_change : PowerBroadcastSetting → PowerSettingChange

-- The constants of windows_sys that tell the settings and the events apart.
pub record PowerGuids : Type 0 where
  pub acdc_power_source : Guid
  pub battery_percentage_remaining : Guid
  pub console_display_state : Guid
  pub global_user_presence : Guid
  pub idle_background_task : Guid
  pub lidswitch_state_change : Guid
  pub monitor_power_on : Guid
  pub power_saving_status : Guid
  pub powerscheme_personality : Guid
  pub session_display_status : Guid
  pub session_user_presence : Guid
  pub system_awaymode : Guid
  pub min_power_savings : Guid
  pub max_power_savings : Guid
  pub typical_power_savings : Guid

pub record PowerCodes : Type 0 where
  pub power_status_change : ℕ
  pub resume_automatic : ℕ
  pub resume_suspend : ℕ
  pub suspend : ℕ
  pub setting_change : ℕ

-- A `POWERBROADCAST_SETTING`, with its `Data` read as a u32 and as a GUID.
pub record Broadcast : Type 0 where
  pub power_setting : Guid
  pub data_u32 : ℕ
  pub data_guid : Guid

abbrev pub map_some {ℓ κ} : {A : Type ℓ} {B : Type κ} → (A → B) → Option A → Option B
map_some f none = none
map_some f (some a) = some (f a)

module _ (guids : PowerGuids) where
  unfoldable pub try_from_guid : Guid → Option PowerschemePersonality
  try_from_guid g =
      if eq g guids.min_power_savings
      then some PowerschemePersonality.min
      else if eq g guids.max_power_savings
      then some PowerschemePersonality.max
      else if eq g guids.typical_power_savings
      then some typical
      else none

  -- `PowerBroadcastSetting::try_cast`.
  unfoldable pub try_cast : Broadcast → Option PowerBroadcastSetting
  try_cast b =
      if eq b.power_setting guids.acdc_power_source
      then map_some acdc_power_source (condition_from_u32 b.data_u32)
      else if eq b.power_setting guids.battery_percentage_remaining
      then some (battery_percentage_remaining b.data_u32)
      else if eq b.power_setting guids.console_display_state
      then map_some console_display_state (display_from_u32 b.data_u32)
      else if eq b.power_setting guids.global_user_presence
      then map_some global_user_presence (presence_from_u32 b.data_u32)
      else if eq b.power_setting guids.idle_background_task
      then some idle_background_task
      else if eq b.power_setting guids.lidswitch_state_change
      then map_some lidswitch_state_change (lid_from_u32 b.data_u32)
      else if eq b.power_setting guids.monitor_power_on
      then some (monitor_power_on (not (b.data_u32 == 0)))
      else if eq b.power_setting guids.power_saving_status
      then some (power_saving_status (not (b.data_u32 == 0)))
      else if eq b.power_setting guids.powerscheme_personality
      then map_some powerscheme_personality (try_from_guid b.data_guid)
      else if eq b.power_setting guids.session_display_status
      then map_some session_display_status (display_from_u32 b.data_u32)
      else if eq b.power_setting guids.session_user_presence
      then map_some session_user_presence (presence_from_u32 b.data_u32)
      else if eq b.power_setting guids.system_awaymode
      then some (system_away_mode (not (b.data_u32 == 0)))
      else none

  -- `PowerSettingChange::try_parse`.
  unfoldable pub try_parse : PowerCodes → ℕ → Broadcast → Option PowerSettingChange
  try_parse codes event_type b =
      if event_type == codes.power_status_change
      then some power_status_change
      else if event_type == codes.resume_automatic
      then some resume_automatic
      else if event_type == codes.resume_suspend
      then some resume_suspend
      else if event_type == codes.suspend
      then some suspend
      else if event_type == codes.setting_change
      then map_some power_setting_change (try_cast b)
      else none
