-- ===== src/Service/Message.antt =====
-- crates/service/src/message.rs: the messages of the service control manager and how they are parsed.
-- What the kernel's raw pointer leads to is a record with a field for each type that the code reads.
pub mod Parse
pub mod Stream
pub mod Race
pub mod Services
use msft.Service.Wchar.{OsString, from_wide}
use msft.Service.Power.{PowerGuids, PowerCodes, PowerSettingChange, Broadcast, map_some}
use msft.Service.Power
use msft.Prelude.{
  ℕ, ◌%◌, ◌^◌, Bool, true, false, ◌&&◌, Option, none, some, Result, ok, err, ok_or, map_err, List,
  Faulty, leb, ◌==◌, if◌then◌else◌, ◌∷◌, [],
}

pub data DeviceEventType : Type 0 where
  arrival remove_complete query_remove query_remove_complete remove_pending custom_event :
      DeviceEventType

-- The payloads of `Oem` and `Volume` are never filled in by this code.
pub data DeviceEventData : Type 0 where
  interface : DeviceEventData
  handle : DeviceEventData
  oem : DeviceEventData
  port : OsString → DeviceEventData
  volume : DeviceEventData

pub record DeviceEvent : Type 0 where
  pub ty : DeviceEventType
  pub payload : DeviceEventData

pub data HardwareProfileChange : Type 0 where
  config_changed query_change_config config_change_canceled : HardwareProfileChange

pub data SessionChangeType : Type 0 where
  console_connect console_disconnect remote_connect remote_disconnect session_logon :
      SessionChangeType
  session_logoff session_lock session_unlock session_remote_control : SessionChangeType
  session_create session_terminate : SessionChangeType

-- `WTSSESSION_NOTIFICATION` and `SERVICE_TIMECHANGE_INFO`.
pub record SessionNotification : Type 0 where
  pub size : ℕ
  pub session_id : ℕ

pub record TimeChangeInfo : Type 0 where
  pub new_time : ℕ
  pub old_time : ℕ

pub data ServiceMessage : Type 0 where
  continue interrogate netbind_add netbind_disable netbind_enable netbind_remove : ServiceMessage
  param_change pause preshutdown shutdown stop : ServiceMessage
  device_event : DeviceEvent → ServiceMessage
  hardware_profile_change : HardwareProfileChange → ServiceMessage
  power_event : PowerSettingChange → ServiceMessage
  session_change : SessionChangeType → SessionNotification → ServiceMessage
  time_change : TimeChangeInfo → ServiceMessage
  trigger_event : ServiceMessage
  user_defined : (control event_type event_data : ℕ) → ServiceMessage

pub record UnsupportedServiceMessage : Type 0 where
  pub control : ℕ
  pub event_type : ℕ

-- What stands behind the `event_data` pointer, and its address. `header_type` and `name` are those of
-- a `DEV_BROADCAST_HDR` and a `DEV_BROADCAST_PORT_W`, the name with the memory behind it.
pub record EventData : Type 0 where
  pub address : ℕ
  pub header_type : ℕ
  pub name : List ℕ
  pub power : Broadcast
  pub session : SessionNotification
  pub time : TimeChangeInfo

-- The constants of windows_sys: the control codes, and the discriminants of the event types.
pub record Controls : Type 0 where
  pub continue : ℕ
  pub interrogate : ℕ
  pub netbind_add : ℕ
  pub netbind_disable : ℕ
  pub netbind_enable : ℕ
  pub netbind_remove : ℕ
  pub param_change : ℕ
  pub pause : ℕ
  pub preshutdown : ℕ
  pub shutdown : ℕ
  pub stop : ℕ
  pub device_event : ℕ
  pub hardware_profile_change : ℕ
  pub power_event : ℕ
  pub session_change : ℕ
  pub time_change : ℕ
  pub trigger_event : ℕ

pub record EventCodes : Type 0 where
  pub device_type : DeviceEventType → ℕ
  pub profile : HardwareProfileChange → ℕ
  pub session : SessionChangeType → ℕ
  pub devtyp_port : ℕ
  pub power : PowerCodes
  pub guids : PowerGuids

-- `FromPrimitive::from_u32` as it is derived: the first variant with this discriminant.
unfoldable pub from_u32 : {A : Type 0} → (A → ℕ) → List A → ℕ → Option A
from_u32 code [] n = none
from_u32 code (a ∷ as') n = let rest = from_u32 code as' n in if n == code a then some a else rest

abbrev pub device_types : List DeviceEventType
device_types =
    arrival ∷ remove_complete ∷ query_remove ∷ query_remove_complete ∷ remove_pending ∷ custom_event
    ∷ []

abbrev pub profile_changes : List HardwareProfileChange
profile_changes = config_changed ∷ query_change_config ∷ config_change_canceled ∷ []

abbrev pub session_changes : List SessionChangeType
session_changes =
    console_connect ∷ console_disconnect ∷ remote_connect ∷ remote_disconnect ∷ session_logon
    ∷ session_logoff ∷ session_lock ∷ session_unlock ∷ session_remote_control ∷ session_create
    ∷ session_terminate ∷ []

-- `Option::map` and `?` on a value whose reading may fault.
abbrev pub fault_then {ℓ κ} : {A : Type ℓ} {B : Type κ} → Faulty A → (A → B) → Faulty B
fault_then none f = none
fault_then (some a) f = some (f a)

abbrev pub port_of : OsString → Option DeviceEventData
port_of name = some (port name)

-- `DeviceEventData::try_cast`: of the five device types only the port's is read.
unfoldable pub cast_device : EventCodes → EventData → Faulty (Option DeviceEventData)
cast_device codes d =
    if d.header_type == codes.devtyp_port then fault_then (from_wide d.name) port_of else some none

abbrev pub with_payload : DeviceEventType → Option DeviceEventData → Option DeviceEvent
with_payload t none = none
with_payload t (some p) = some (record { ty = t; payload = p })

abbrev pub with_type :
    Option DeviceEventType → Faulty (Option DeviceEventData) → Faulty (Option DeviceEvent)
with_type none read = some none
with_type (some t) read = fault_then read (with_payload t)

-- `DeviceEvent::try_parse`.
unfoldable pub parse_device : EventCodes → ℕ → EventData → Faulty (Option DeviceEvent)
parse_device codes event_type d =
    with_type (from_u32 codes.device_type device_types event_type) (cast_device codes d)

abbrev arrived_port : DeviceEventType → DeviceEventData → DeviceEvent → Result OsString DeviceEvent
arrived_port arrival (port name) e = ok name
arrived_port _ _ e = err e

-- `DeviceEvent::filter_port_arrival`.
unfoldable pub filter_port_arrival : DeviceEvent → Result OsString DeviceEvent
filter_port_arrival e = arrived_port e.ty e.payload e

abbrev pub Parsed : Type 0
Parsed = Result ServiceMessage UnsupportedServiceMessage

-- `.ok_or_else(..).map(..)`.
abbrev pub supported {ℓ} :
    {A : Type ℓ} → UnsupportedServiceMessage → (A → ServiceMessage) → Option A → Parsed
supported e f none = err e
supported e f (some a) = ok (f a)

-- The arm of a device event.
unfoldable pub device_message : EventCodes → ℕ → ℕ → EventData → Faulty Parsed
device_message codes control event_type d =
    fault_then (parse_device codes event_type d)
      (supported (record { control = control; event_type = event_type }) device_event)

-- `ServiceMessageEx::try_parse`.
unfoldable pub try_parse : Controls → EventCodes → ℕ → ℕ → EventData → Faulty Parsed
try_parse k codes control event_type d =
    if control == k.continue
    then some (ok continue)
    else if control == k.interrogate
    then some (ok interrogate)
    else if control == k.netbind_add
    then some (ok netbind_add)
    else if control == k.netbind_disable
    then some (ok netbind_disable)
    else if control == k.netbind_enable
    then some (ok netbind_enable)
    else if control == k.netbind_remove
    then some (ok netbind_remove)
    else if control == k.param_change
    then some (ok param_change)
    else if control == k.pause
    then some (ok pause)
    else if control == k.preshutdown
    then some (ok preshutdown)
    else if control == k.shutdown
    then some (ok shutdown)
    else if control == k.stop
    then some (ok stop)
    else if control == k.device_event
    then device_message codes control event_type d
    else if control == k.hardware_profile_change
    then some (
        supported (record { control = control; event_type = event_type }) hardware_profile_change
          (from_u32 codes.profile profile_changes event_type))
    else if control == k.power_event
    then some (
        supported (record { control = control; event_type = event_type }) power_event
          (Power.try_parse codes.guids codes.power event_type d.power))
    else if control == k.session_change
    then some (
        supported (record { control = control; event_type = event_type })
          (λ t. session_change t d.session) (from_u32 codes.session session_changes event_type))
    else if control == k.time_change
    then some (ok (time_change d.time))
    else if control == k.trigger_event
    then some (ok trigger_event)
    else if leb 128 control && leb control 255
    then some (ok (user_defined (control % 2 ^ 8) event_type d.address))
    else some (err (record { control = control; event_type = event_type }))
