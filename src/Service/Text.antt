-- ===== src/Service/Text.antt =====
-- crates/service/src/message.rs: the texts of messages, as their `Display` writes them. A text is a list of
-- characters, by number.
pub mod Decimal
pub mod ReadBack
pub mod Reader
use Prim.Native.Char.{code}
use Prim.Native.String.{String}
use msft.Service.Text.Decimal.{decimal}
use msft.Service.Message.{
  DeviceEventType, arrival, remove_complete, query_remove, query_remove_complete, remove_pending,
  custom_event, DeviceEventData, interface, handle, oem, port, volume, DeviceEvent,
  HardwareProfileChange, config_changed, query_change_config, config_change_canceled,
  SessionChangeType, console_connect, console_disconnect, remote_connect, remote_disconnect,
  session_logon, session_logoff, session_lock, session_unlock, session_remote_control,
  session_create, session_terminate, ServiceMessage, continue, interrogate, netbind_add,
  netbind_disable, netbind_enable, netbind_remove, param_change, pause, preshutdown, shutdown, stop,
  device_event, hardware_profile_change, power_event, session_change, time_change, trigger_event,
  user_defined, UnsupportedServiceMessage,
}
use msft.Service.Power.{
  PowerCondition, ac, dc, hot, DisplayState, off, on, dim, UserPresence, present, inactive,
  PowerschemePersonality, min, max, typical, LidswitchState, closed, opened, PowerBroadcastSetting,
  acdc_power_source, battery_percentage_remaining, console_display_state, global_user_presence,
  idle_background_task, lidswitch_state_change, monitor_power_on, power_saving_status,
  powerscheme_personality, session_display_status, session_user_presence, system_away_mode,
  PowerSettingChange, power_status_change, resume_automatic, resume_suspend, suspend,
  power_setting_change,
}
use msft.Service.Wchar.{OsString}
use msft.Prelude.{ℕ, Bool, true, false, List, [], ◌∷◌, ◌++◌}

abbrev pub Text : Type 0
Text = List ℕ

abbrev pub codes : String → Text
codes String.[] = []
codes (String.◌∷◌ c s) = code c ∷ codes s

abbrev pub bool_text : Bool → Text
bool_text true = codes "true"
bool_text false = codes "false"

abbrev pub event_type_text : DeviceEventType → Text
event_type_text arrival = codes "device arrival"
event_type_text remove_complete = codes "device remove complete"
event_type_text query_remove = codes "device query remove"
event_type_text query_remove_complete = codes "device query remove complete"
event_type_text remove_pending = codes "device remove pending"
event_type_text custom_event = codes "device custom event"

abbrev pub event_data_text : DeviceEventData → Text
event_data_text interface = codes "interface => [[TODO]]"
event_data_text handle = codes "handle => [[TODO]]"
event_data_text oem = codes "oem => [[TODO]]"
event_data_text (port p) = codes "port => [[TODO]]"
event_data_text volume = codes "volume => [[TODO]]"

-- The hand-written `Debug` of the same type; `debug` is that of an `OsString`.
abbrev pub event_data_debug : (debug : OsString → Text) → DeviceEventData → Text
event_data_debug debug interface = codes "DeviceEventData::Interface(TODO)"
event_data_debug debug handle = codes "DeviceEventData::Interface(TODO)"
event_data_debug debug oem = codes "DeviceEventData::Interface(TODO)"
event_data_debug debug (port p) = codes "DeviceEventData::Port(" ++ (debug p ++ codes ")")
event_data_debug debug volume = codes "DeviceEventData::Interface(TODO)"

abbrev pub device_event_text : DeviceEventType → DeviceEventData → Text
device_event_text ty payload = event_type_text ty ++ (codes " " ++ event_data_text payload)

abbrev pub profile_text : HardwareProfileChange → Text
profile_text config_changed = codes "config changed"
profile_text query_change_config = codes "query change config"
profile_text config_change_canceled = codes "config change canceled"

abbrev pub condition_text : PowerCondition → Text
condition_text ac = codes "computer is powred by AC power source"
condition_text dc = codes "computer is powred by onboard battery power source"
condition_text hot = codes "computer is powred short-term power source"

abbrev pub display_text : DisplayState → Text
display_text off = codes "display off"
display_text on = codes "display on"
display_text dim = codes "display dim"

abbrev pub presence_text : UserPresence → Text
presence_text present = codes "user present"
presence_text inactive = codes "user inactive"

abbrev pub personality_text : PowerschemePersonality → Text
personality_text min = codes "high performance"
personality_text max = codes "low performance"
personality_text typical = codes "typical performance"

abbrev pub lid_text : LidswitchState → Text
lid_text opened = codes "lid opened"
lid_text closed = codes "lid closed"

abbrev pub setting_text : PowerBroadcastSetting → Text
setting_text (acdc_power_source c) = codes "acdc power condition => " ++ condition_text c
setting_text (battery_percentage_remaining p) = codes "battery remaining => " ++ decimal p
setting_text (console_display_state s) = codes "console display => " ++ display_text s
setting_text (global_user_presence p) = codes "global user precence => " ++ presence_text p
setting_text idle_background_task = codes "idle background task"
setting_text (lidswitch_state_change l) = codes "lid switch => " ++ lid_text l
setting_text (monitor_power_on b) = codes "monitor power status => " ++ bool_text b
setting_text (power_saving_status b) = codes "power savings status => " ++ bool_text b
setting_text (powerscheme_personality p) = codes "power personality => " ++ personality_text p
setting_text (session_display_status s) = codes "session display => " ++ display_text s
setting_text (session_user_presence u) = codes "session user presence => " ++ presence_text u
setting_text (system_away_mode b) = codes "system away mode " ++ bool_text b

abbrev pub power_text : PowerSettingChange → Text
power_text power_status_change = codes "power status changed"
power_text resume_automatic = codes "resume automatic"
power_text resume_suspend = codes "resume suspend"
power_text suspend = codes "suspend"
power_text (power_setting_change s) = codes "power setting change => " ++ setting_text s

abbrev pub session_text : SessionChangeType → Text
session_text console_connect = codes "console connected"
session_text console_disconnect = codes "console disconnected"
session_text remote_connect = codes "remote connected"
session_text remote_disconnect = codes "remote disconnected"
session_text session_logon = codes "session logon"
session_text session_logoff = codes "session logoff"
session_text session_lock = codes "session lock"
session_text session_unlock = codes "session unlock"
session_text session_remote_control = codes "session remote control"
session_text session_create = codes "session create"
session_text session_terminate = codes "session terminate"

-- `ServiceMessageEx::fmt`, for `Display` and for `Debug`.
abbrev pub message_text : ServiceMessage → Text
message_text continue = codes "continue"
message_text interrogate = codes "interrogate"
message_text netbind_add = codes "netbind add"
message_text netbind_disable = codes "netbind disable"
message_text netbind_enable = codes "netbind enable"
message_text netbind_remove = codes "netbind remove"
message_text param_change = codes "param change"
message_text pause = codes "pause"
message_text preshutdown = codes "pre-shutdown"
message_text shutdown = codes "shutdown"
message_text stop = codes "stop"
message_text (device_event e) = codes "device event type => " ++ device_event_text e.ty e.payload
message_text (hardware_profile_change p) = codes "hardware profile change => " ++ profile_text p
message_text (power_event ev) = codes "power event => " ++ power_text ev
message_text (session_change s n) =
    codes "session change => " ++ (session_text s ++ codes " [[TODO]]")
message_text (time_change t) = codes "time change => [[TODO]]"
message_text trigger_event = codes "trigger event"
message_text (user_defined c e d) =
    codes "user defined => " ++ (decimal c ++ (codes " " ++ decimal e))

abbrev pub unsupported_text : UnsupportedServiceMessage → Text
unsupported_text u =
    codes "Unsupported SCM Message (control: "
    ++ (decimal u.control ++ (codes ", type: " ++ (decimal u.event_type ++ codes ")")))
