-- ===== src/Service/Examples/OfMessages.antt =====
-- Concrete service messages (crates/service/src/message.rs).
use msft.Service.Message.Parse
use msft.Service.Message.Stream
use msft.Service.Message.Race
use msft.Service.Message.Services
use msft.Service.Message.Services.{StoreEvent}
use msft.Service.Message.{
  Controls, EventCodes, EventData, DeviceEventType, ServiceMessage, arrival, remove_complete,
  query_remove, query_remove_complete, remove_pending, custom_event, port, device_event, stop,
}
use msft.Service.Guid.{Guid}
use msft.Prelude.{ℕ, ◌≡◌, refl, false, some, List, [], ◌∷◌, ◌++◌, map, arith}
use msft.Service.Message.Stream.{control, polls}
use msft.Prelude.Wakers.{update_waker}
use msft.Prelude.Tasks.{sleeping}

-- The values that windows_sys gives the controls.
abbrev controls : Controls
controls = record {
  continue = 3;
  interrogate = 4;
  netbind_add = 7;
  netbind_disable = 10;
  netbind_enable = 9;
  netbind_remove = 8;
  param_change = 6;
  pause = 2;
  preshutdown = 15;
  shutdown = 5;
  stop = 1;
  device_event = 11;
  hardware_profile_change = 12;
  power_event = 13;
  session_change = 14;
  time_change = 16;
  trigger_event = 32;
}

abbrev device_code : DeviceEventType → ℕ
device_code arrival = 0x8000
device_code query_remove = 0x8001
device_code query_remove_complete = 0x8002
device_code remove_pending = 0x8003
device_code remove_complete = 0x8004
device_code custom_event = 0x8006

abbrev no_guid : Guid
no_guid = record { data1 = 0; data2 = 0; data3 = 0; data4 = [] }

-- The device events as windows_sys numbers them; the messages below use no other kind.
abbrev pub event_codes : EventCodes
event_codes = record {
  device_type = device_code;
  profile = λ p. 0;
  session = λ s. 1;
  devtyp_port = 3;
  power = record {
    power_status_change = 10;
    resume_automatic = 18;
    resume_suspend = 7;
    suspend = 4;
    setting_change = 32787;
  };
  guids = record {
    acdc_power_source = no_guid;
    battery_percentage_remaining = no_guid;
    console_display_state = no_guid;
    global_user_presence = no_guid;
    idle_background_task = no_guid;
    lidswitch_state_change = no_guid;
    monitor_power_on = no_guid;
    power_saving_status = no_guid;
    powerscheme_personality = no_guid;
    session_display_status = no_guid;
    session_user_presence = no_guid;
    system_awaymode = no_guid;
    min_power_savings = no_guid;
    max_power_savings = no_guid;
    typical_power_savings = no_guid;
  };
}

-- The name COM4, with its NUL.
abbrev pub com4_data : EventData
com4_data = record {
  address = 4096;
  header_type = 3;
  name = b'C' ∷ b'O' ∷ b'M' ∷ b'4' ∷ 0 ∷ [];
  power = record { power_setting = no_guid; data_u32 = 0; data_guid = no_guid };
  session = record { size = 8; session_id = 1 };
  time = record { new_time = 0; old_time = 0 };
}

abbrev com4_arrived : ServiceMessage
com4_arrived =
    device_event (record { ty = arrival; payload = port (b'C' ∷ b'O' ∷ b'M' ∷ b'4' ∷ []) })

abbrev two_calls : List Stream.Event
two_calls = control 2 0 com4_data ∷ polls 7 ∷ control 1 0 com4_data ∷ polls 7 ∷ polls 7 ∷ []

abbrev about_to_wake : Race.World
about_to_wake = record {
  state = record { messages = stop ∷ []; waker = some 7 };
  locked = false;
  task = sleeping;
  handler = Race.due;
}

message_wakes_example :
    (about_to_wake.handler ≡ Race.due)
    × (about_to_wake.locked ≡ false)
    × (about_to_wake.state.waker ≡ some 7)
unfolding update_waker
message_wakes_example =
    Race.message_wakes 7 Stream.default {w = about_to_wake}
      (Race.later
        (Race.later
          (Race.later (Race.later Race.here (Race.locks refl refl))
            (Race.pops_none false refl refl))
          (Race.stores_waker false refl))
        (Race.pushes stop refl))
      refl (ground arith)

-- Two services, with the contexts 1 and 2.
abbrev two_services : List StoreEvent
two_services =
    (1, control 2 0 com4_data) ∷ (2, control 3 0 com4_data) ∷ (1, polls 7) ∷ (2, polls 8) ∷ []

services_fifo_example :
    Services.received_at controls event_codes 2 two_services (λ p. Stream.default)
      ++ map Stream.item
          (Services.run_store controls event_codes two_services (λ p. Stream.default) 2).messages
    ≡ map Stream.item (Stream.sent controls event_codes (control 3 0 com4_data ∷ polls 8 ∷ []))
services_fifo_example =
    Services.services_fifo controls event_codes 2 two_services (λ p. Stream.default)
