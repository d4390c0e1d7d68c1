-- ===== src/Service/Message/Parse.antt =====
-- What a parsed service message says of the call that brought it.
use msft.Service.Message
use msft.Prelude.{ℕ, ◌≡◌, ◌≤◌, arith, List, [], ◌∷◌, some, err}
use msft.Service.Wchar.{OsString, from_wide}
use msft.Service.Power.{try_parse}
use msft.Service.Message.{
  continue, interrogate, netbind_add, netbind_disable, netbind_enable, netbind_remove, param_change,
  pause, preshutdown, shutdown, stop, device_event, hardware_profile_change, power_event,
  session_change, time_change, trigger_event, user_defined, port, cast_device, parse_device,
  from_u32, Controls, EventCodes, EventData, ServiceMessage, UnsupportedServiceMessage,
  device_event, cast_device, port, hardware_profile_change, power_event, session_change,
  time_change, user_defined, device_message,
}

-- What stands in a message, read against the arguments of the handler.
abbrev pub Describes :
    Controls → EventCodes → ServiceMessage → (control event_type : ℕ) → EventData → Type 0
Describes k codes continue c t d = c ≡ k.continue
Describes k codes interrogate c t d = c ≡ k.interrogate
Describes k codes netbind_add c t d = c ≡ k.netbind_add
Describes k codes netbind_disable c t d = c ≡ k.netbind_disable
Describes k codes netbind_enable c t d = c ≡ k.netbind_enable
Describes k codes netbind_remove c t d = c ≡ k.netbind_remove
Describes k codes param_change c t d = c ≡ k.param_change
Describes k codes pause c t d = c ≡ k.pause
Describes k codes preshutdown c t d = c ≡ k.preshutdown
Describes k codes shutdown c t d = c ≡ k.shutdown
Describes k codes stop c t d = c ≡ k.stop
Describes k codes (device_event e) c t d =
    (c ≡ k.device_event)
    × (t ≡ codes.device_type e.ty)
    × (d.header_type ≡ codes.devtyp_port)
    × ((name : OsString) × (from_wide d.name ≡ some name) × (e.payload ≡ port name))
Describes k codes (hardware_profile_change p) c t d =
    (c ≡ k.hardware_profile_change) × (t ≡ codes.profile p)
Describes k codes (power_event p) c t d =
    (c ≡ k.power_event) × (try_parse codes.guids codes.power t d.power ≡ some p)
Describes k codes (session_change s n) c t d =
    (c ≡ k.session_change) × (t ≡ codes.session s) × (n ≡ d.session)
Describes k codes (time_change i) c t d = (c ≡ k.time_change) × (i ≡ d.time)
Describes k codes trigger_event c t d = c ≡ k.trigger_event
Describes k codes (user_defined u e a) c t d =
    (c ≡ u) × (128 ≤ u) × (u ≤ 255) × (e ≡ t) × (a ≡ d.address)

pub from_u32-code :
    {A : Type 0} (code : A → ℕ) (xs : List A) (n : ℕ) (a : A)
    → from_u32 code xs n ≡ some a
    → n ≡ code a
unfolding from_u32
from_u32-code code [] n a h = ground arith
from_u32-code code (x ∷ xs) n a h = ground (arith, from_u32-code code xs n a)

-- The arm of device events returns nothing but a device event.
abbrev ReadsDevice : EventCodes → ServiceMessage → ℕ → EventData → Type 0
ReadsDevice codes (device_event e) t d = parse_device codes t d ≡ some (some e)
ReadsDevice codes _ t d = ⊥

device_message-err :
    (codes : EventCodes) (c t : ℕ) (d : EventData) (e : UnsupportedServiceMessage)
    → device_message codes c t d ≡ some (err e)
    → e ≡ record { control = c; event_type = t }
unfolding device_message
device_message-err codes c t d e h = ground arith

-- A message that cannot be parsed is reported with its own control and event type.
pub try_parse-err :
    (k : Controls) (codes : EventCodes) (c t : ℕ) (d : EventData) (e : UnsupportedServiceMessage)
    → Message.try_parse k codes c t d ≡ some (err e)
    → e ≡ record { control = c; event_type = t }
unfolding Message.try_parse
try_parse-err k codes c t d e h = ground (arith, device_message-err codes c t d e)
