-- ===== src/Service/Window/Stream.antt =====
-- What the stream of a notification listener (crates/service/src/device.rs) has of the listener's thread.
use msft.Service.Window.Sent.{sent, ending, NoneCloses, EndsLoop, AllRegister, sent-dispatcher}
use msft.Service.Message.{EventCodes}
use msft.Runtime.Wait.Restart.{quiet}
use mathlib.Core.List.{append_assoc}
use msft.Service.Listener.Order.{
  scans, polls, received as returned_by, listener_fifo, run, events_of, Event, brought, window,
}
use msft.Service.Listener.{Shared, queued_by}
use msft.Service.Window.{quit_received, get_failed, received, device_notification_window_dispatcher}
use msft.Service.Listener.{WindowMessage, other}
use msft.Service.Window.{GetMessage, NotificationRegistry, WindowCalls, WindowCodes}
use msft.Prelude.{List, [], false, map, refl, true, ℕ, ◌++◌, ◌==◌, ◌∷◌, ◌≡◌, ◌∙◌, none, not, ◌&&◌}

-- The window messages among what happens to a listener, and that there is no scan among it.
abbrev pub windows_of : List Event → List WindowMessage
windows_of [] = []
windows_of (window m ∷ es) = m ∷ windows_of es
windows_of (scans ps ∷ es) = windows_of es
windows_of (polls cx ∷ es) = windows_of es

abbrev pub NoScans : List Event → Type 0
NoScans [] = Unit
NoScans (window m ∷ es) = NoScans es
NoScans (scans ps ∷ es) = ⊥
NoScans (polls cx ∷ es) = NoScans es

brought-windows_of :
    (evs : EventCodes) (es : List Event)
    → NoScans es
    → brought evs es ≡ brought evs (map window (windows_of es))
brought-windows_of evs [] h = refl
brought-windows_of evs (window m ∷ es) h = rw (brought-windows_of evs es h) refl
brought-windows_of evs (scans ps ∷ es) h = elim h [ ]
brought-windows_of evs (polls cx ∷ es) h = brought-windows_of evs es h

brought-append :
    (evs : EventCodes) (ms ns : List WindowMessage)
    → brought evs (map window (ms ++ ns))
      ≡ brought evs (map window ms) ++ brought evs (map window ns)
brought-append evs [] ns = refl
brought-append evs (m ∷ ms) ns =
    rw
      (
        brought-append evs ms ns,
        append_assoc (events_of (queued_by evs m)) (brought evs (map window ms))
            (brought evs (map window ns)),
      )
      refl

brought-ending :
    (message_of : ℕ → WindowMessage) (codes : WindowCodes) (evs : EventCodes) (last : GetMessage)
    → brought evs (map window (ending message_of codes last)) ≡ none ∷ []
brought-ending message_of codes evs quit_received = refl
brought-ending message_of codes evs get_failed = refl
brought-ending message_of codes evs (received m) = refl

-- A listener whose window is created and whose registrations are taken ends at the first message that
-- closes its window, at a quit message, or where none can be had. Let polls come in between the
-- messages that reach its procedure, in any way. Then what the polls return, followed by what is still
-- queued, is what was queued, the events of the messages before the end, in order, and the end of the
-- stream.
pub dispatcher-ends :
    (message_of : ℕ → WindowMessage) (codes : WindowCodes) (calls : WindowCalls) (evs : EventCodes)
    (gs : NotificationRegistry) (ms : List ℕ) (last : GetMessage) (rest : List GetMessage)
    (es : List Event) (s : Shared)
    → message_of codes.wm_close ≡ other
    → (calls.create_window == 0) ≡ false
    → (calls.previous_user_data == 0 && not (calls.user_data_error == 0)) ≡ false
    → AllRegister message_of codes calls calls.create_window codes.notify_window_handle gs
    → NoneCloses message_of codes ms
    → EndsLoop message_of codes last
    → NoScans es
    → windows_of es
      ≡ sent message_of codes true
          (device_notification_window_dispatcher calls codes gs
            (map received ms ++ (last ∷ rest))).0
    → returned_by evs es s ++ (run evs es s).queue
      ≡ s.queue ++ (brought evs (map window (map message_of ms)) ++ (none ∷ []))
dispatcher-ends message_of codes calls evs gs ms last rest es s by_default c u h n e quiet all =
    let (cs, r, d, sends) =
      sent-dispatcher message_of codes calls gs ms last rest by_default c u h n e in
    let all' : windows_of es ≡ map message_of ms ++ ending message_of codes last =
      (rw d at all) ∙ sends in
    rw
      (
        listener_fifo evs es s,
        brought-windows_of evs es quiet,
        all',
        brought-append evs (map message_of ms) (ending message_of codes last),
        brought-ending message_of codes evs last,
      )
      refl
