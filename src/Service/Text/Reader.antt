-- ===== src/Service/Text/Reader.antt =====
-- A reader of the texts of messages (crates/service/src/message.rs), and what it gives back of a message.
use msft.Service.Guid.{bytes_eq}
use msft.Service.Text.Decimal.{scan}
use msft.Service.Text.{Text, codes, message_text}
use msft.Service.Message.{
  DeviceEventData, interface, handle, oem, port, volume, SessionNotification, ServiceMessage,
  continue, interrogate, netbind_add, netbind_disable, netbind_enable, netbind_remove, param_change,
  pause, preshutdown, shutdown, stop, device_event, hardware_profile_change, power_event,
  session_change, time_change, trigger_event, user_defined, device_types, profile_changes,
  session_changes, TimeChangeInfo,
}
use msft.Service.Power.{
  ac, dc, hot, off, on, dim, present, inactive, min, max, typical, closed, opened,
  PowerBroadcastSetting, acdc_power_source, battery_percentage_remaining, console_display_state,
  global_user_presence, idle_background_task, lidswitch_state_change, monitor_power_on,
  power_saving_status, powerscheme_personality, session_display_status, session_user_presence,
  system_away_mode, PowerSettingChange, power_status_change, resume_automatic, resume_suspend,
  suspend, power_setting_change,
}
use msft.Prelude.{
  ℕ, ◌^◌, ◌<◌, true, false, List, [], ◌∷◌, ◌++◌, map, Option, none, some, ◌==◌, if◌then◌else◌,
}

abbrev pub shown_data : DeviceEventData → DeviceEventData
shown_data (port p) = port []
shown_data interface = interface
shown_data handle = handle
shown_data oem = oem
shown_data volume = volume

abbrev pub no_session : SessionNotification
no_session = record { size = 0; session_id = 0 }

abbrev no_time : TimeChangeInfo
no_time = record { new_time = 0; old_time = 0 }

-- A message without what its text does not show: the name of a port, the session of a change, the times,
-- and the address behind a user-defined event.
abbrev pub shown : ServiceMessage → ServiceMessage
shown (device_event e) = device_event (record { ty = e.ty; payload = shown_data e.payload })
shown (session_change s n) = session_change s no_session
shown (time_change t) = time_change no_time
shown (user_defined c e d) = user_defined c e 0
shown m = m

-- The numbers of a message fit 64 bits.
abbrev pub NumbersFit : ServiceMessage → Type 0
NumbersFit (power_event (power_setting_change (battery_percentage_remaining p))) = p < 2 ^ 64
NumbersFit (user_defined c e d) = (c < 2 ^ 64) × (e < 2 ^ 64)
NumbersFit _ = Unit

-- The messages without numbers, as they are shown.
abbrev settings : List PowerBroadcastSetting
settings =
    idle_background_task ∷ map acdc_power_source (ac ∷ dc ∷ hot ∷ [])
    ++ (map console_display_state (off ∷ on ∷ dim ∷ [])
        ++ (map global_user_presence (present ∷ inactive ∷ [])
            ++ (map lidswitch_state_change (closed ∷ opened ∷ [])
                ++ (map monitor_power_on (true ∷ false ∷ [])
                    ++ (map power_saving_status (true ∷ false ∷ [])
                        ++ (map powerscheme_personality (min ∷ max ∷ typical ∷ [])
                            ++ (map session_display_status (off ∷ on ∷ dim ∷ [])
                                ++ (map session_user_presence (present ∷ inactive ∷ [])
                                    ++ map system_away_mode (true ∷ false ∷ [])))))))))

abbrev powers : List PowerSettingChange
powers =
    power_status_change
    ∷ resume_automatic
    ∷ resume_suspend
    ∷ suspend
    ∷ map power_setting_change settings

abbrev device_messages : DeviceEventData → List ServiceMessage
device_messages d = map (λ ty. device_event (record { ty = ty; payload = d })) device_types

abbrev table : List ServiceMessage
table =
    (continue
      ∷ interrogate
      ∷ netbind_add
      ∷ netbind_disable
      ∷ netbind_enable
      ∷ netbind_remove
      ∷ param_change
      ∷ pause
      ∷ preshutdown
      ∷ shutdown
      ∷ stop
      ∷ trigger_event
      ∷ time_change no_time
      ∷ [])
    ++ (map hardware_profile_change profile_changes
        ++ (map power_event powers
            ++ (map (λ s. session_change s no_session) session_changes
                ++ (device_messages interface
                    ++ (device_messages handle
                        ++ (device_messages oem
                            ++ (device_messages (port []) ++ device_messages volume)))))))

unfoldable pub named : List ServiceMessage → Text → Option ServiceMessage
named [] t = none
named (m ∷ ms) t = let rest = named ms t in if bytes_eq (message_text m) t then some m else rest

-- What stands behind a text.
unfoldable pub strip : Text → Text → Option Text
strip [] t = some t
strip (c ∷ p) [] = none
strip (c ∷ p) (d ∷ t) = if c == d then strip p t else none

abbrev battery : Text
battery = codes "power event => power setting change => battery remaining => "

abbrev user : Text
user = codes "user defined => "

abbrev read_battery : Text → ServiceMessage
read_battery t = power_event (power_setting_change (battery_percentage_remaining (scan t 0).0))

abbrev read_event : ℕ × Text → Option ServiceMessage
read_event (c, []) = none
read_event (c, _ ∷ t) = some (user_defined c (scan t 0).0 0)

abbrev read_plain : Text → Option Text → Option ServiceMessage
read_plain t none = named table t
read_plain t (some rest) = read_event (scan rest 0)

abbrev read_rest : Text → Option Text → Option ServiceMessage
read_rest t none = read_plain t (strip user t)
read_rest t (some rest) = some (read_battery rest)

-- A reader of texts.
unfoldable pub read : Text → Option ServiceMessage
read t = read_rest t (strip battery t)
