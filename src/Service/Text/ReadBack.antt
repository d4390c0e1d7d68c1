-- ===== src/Service/Text/ReadBack.antt =====
-- What the text of a message says (crates/service/src/message.rs).
use msft.Service.Text.Reader.{shown, shown_data, no_session, NumbersFit, named, strip, read}
use msft.Service.Guid.{bytes_eq}
use msft.Service.Text.Decimal.{scan, scan-decimal}
use msft.Service.Text.{codes, message_text, decimal}
use mathlib.Core.List.{append-nil}
use msft.Service.Message.{
  config_changed, console_connect, DeviceEventType, DeviceEventData, arrival, interface, handle,
  oem, port, volume, SessionNotification, ServiceMessage, device_event, hardware_profile_change,
  power_event, session_change, time_change, user_defined, HardwareProfileChange, SessionChangeType,
}
use msft.Service.Power.{
  PowerCondition, UserPresence, PowerschemePersonality, LidswitchState, ac, off, present, min,
  closed, opened, PowerBroadcastSetting, acdc_power_source, battery_percentage_remaining,
  console_display_state, global_user_presence, idle_background_task, lidswitch_state_change,
  monitor_power_on, power_saving_status, powerscheme_personality, session_display_status,
  session_user_presence, system_away_mode, power_status_change, power_setting_change, DisplayState,
}
use msft.Prelude.{ap, sym, ◌∙◌, ℕ, ◌^◌, ◌<◌, ◌≡◌, true, false, [], ◌++◌, some, refl, Bool, ap, sym}

read-device :
    (d : DeviceEventData) (ty : DeviceEventType)
    → read (message_text (device_event (record { ty = ty; payload = d })))
      ≡ some (device_event (record { ty = ty; payload = shown_data d }))
unfolding read strip named bytes_eq
read-device interface arrival = refl
read-device interface _ = refl
read-device handle arrival = refl
read-device handle _ = refl
read-device oem arrival = refl
read-device oem _ = refl
read-device (port p) arrival = refl
read-device (port p) _ = refl
read-device volume arrival = refl
read-device volume _ = refl

read-profile :
    (p : HardwareProfileChange)
    → read (message_text (hardware_profile_change p)) ≡ some (hardware_profile_change p)
unfolding read strip named bytes_eq
read-profile config_changed = refl
read-profile _ = refl

read-session :
    (s : SessionChangeType) (n : SessionNotification)
    → read (message_text (session_change s n)) ≡ some (session_change s no_session)
unfolding read strip named bytes_eq
read-session console_connect n = refl
read-session _ n = refl

abbrev IsSettingPlain : PowerBroadcastSetting → Type 0
IsSettingPlain s =
    read (message_text (power_event (power_setting_change s)))
    ≡ some (power_event (power_setting_change s))

read-display :
    (d : DisplayState)
    → IsSettingPlain (console_display_state d) × IsSettingPlain (session_display_status d)
unfolding read strip named bytes_eq
read-display off = (refl, refl)
read-display _ = (refl, refl)

read-presence :
    (u : UserPresence)
    → IsSettingPlain (global_user_presence u) × IsSettingPlain (session_user_presence u)
unfolding read strip named bytes_eq
read-presence present = (refl, refl)
read-presence _ = (refl, refl)

read-flag :
    (b : Bool)
    → IsSettingPlain (monitor_power_on b)
      × IsSettingPlain (power_saving_status b)
      × IsSettingPlain (system_away_mode b)
unfolding read strip named bytes_eq
read-flag true = (refl, refl, refl)
read-flag false = (refl, refl, refl)

read-condition : (c : PowerCondition) → IsSettingPlain (acdc_power_source c)
unfolding read strip named bytes_eq
read-condition ac = refl
read-condition _ = refl

read-personality : (p : PowerschemePersonality) → IsSettingPlain (powerscheme_personality p)
unfolding read strip named bytes_eq
read-personality min = refl
read-personality _ = refl

read-lid : (l : LidswitchState) → IsSettingPlain (lidswitch_state_change l)
unfolding read strip named bytes_eq
read-lid opened = refl
read-lid closed = refl

read-battery_text : (p : ℕ) → p < 2 ^ 64 → IsSettingPlain (battery_percentage_remaining p)
unfolding read strip
read-battery_text p h =
    ap (λ t. some (power_event (power_setting_change (battery_percentage_remaining (scan t 0).0))))
      (sym (append-nil (decimal p)))
    ∙ rw (scan-decimal p [] h tt) refl

read-setting :
    (s : PowerBroadcastSetting)
    → NumbersFit (power_event (power_setting_change s))
    → IsSettingPlain s
unfolding read strip named bytes_eq
read-setting (acdc_power_source c) h = read-condition c
read-setting (battery_percentage_remaining p) h = read-battery_text p h
read-setting (console_display_state d) h = (read-display d).0
read-setting (global_user_presence u) h = (read-presence u).0
read-setting idle_background_task h = refl
read-setting (lidswitch_state_change l) h = read-lid l
read-setting (monitor_power_on b) h = (read-flag b).0
read-setting (power_saving_status b) h = (read-flag b).1
read-setting (powerscheme_personality p) h = read-personality p
read-setting (session_display_status d) h = (read-display d).1
read-setting (session_user_presence u) h = (read-presence u).1
read-setting (system_away_mode b) h = (read-flag b).2

read-user :
    (c e d : ℕ)
    → c < 2 ^ 64
    → e < 2 ^ 64
    → read (message_text (user_defined c e d)) ≡ some (user_defined c e 0)
unfolding read strip named bytes_eq
read-user c e d h k = rw (scan-decimal c (codes " " ++ decimal e) h refl) (
    ap (λ t. some (user_defined c (scan t 0).0 0)) (sym (append-nil (decimal e)))
    ∙ rw (scan-decimal e [] k tt) refl)

-- The text of a message says all that a message shows: it reads back as the message, less the name of a
-- port, the session of a change, the times of a change of time, and the pointer of a user-defined event.
-- Its numbers are to fit 64 bits.
pub read-message_text : (m : ServiceMessage) → NumbersFit m → read (message_text m) ≡ some (shown m)
unfolding read strip named bytes_eq
read-message_text (device_event e) h = read-device e.payload e.ty
read-message_text (hardware_profile_change p) h = read-profile p
read-message_text (power_event (power_setting_change s)) h = read-setting s h
read-message_text (power_event power_status_change) h = refl
read-message_text (power_event _) h = refl
read-message_text (session_change s n) h = read-session s n
read-message_text (user_defined c e d) h = read-user c e d h.0 h.1
read-message_text (time_change t) h = refl
read-message_text _ h = refl
