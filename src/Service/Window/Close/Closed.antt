-- ===== src/Service/Window/Close/Closed.antt =====
-- Closing a listener, against the listener's thread, and against other listeners
-- (crates/service/src/device.rs).
use msft.Service.Wchar.{to_wide}
use msft.Service.Message.{EventCodes}
use msft.Service.Listener.Order.{brought, Event, run}
use msft.Service.Window.Stream.{dispatcher-ends, NoScans, windows_of}
use msft.Service.Window.Close.{ListenerCalls, Listener, Thread, close}
use msft.Service.Window.Sent.{sent, NoneCloses, AllRegister, register_from-AllRegister}
use msft.Service.Window.{
  received, NotificationRegistry, WindowCalls, WindowCodes, message_loop,
  create_device_notification_window, device_notification_window_dispatcher, dropped_guards,
  then_calls, Call, window_created,
}
use msft.Service.Listener.{WindowMessage, other, Shared}
use msft.Service.Listener.Order
use msft.Prelude.{
  refl, ℕ, ◌≡◌, ◌≢◌, ◌==◌, false, not, ◌&&◌, List, [], ◌∷◌, ◌++◌, map, some, ok, arith, Option,
  Result, none, true,
}

-- What Win32 documents of `PostMessageW`: a message that is taken is the next one of the window's thread,
-- behind those that are there. `thread_of` is the thread of a window.
pub record PostLaws {K : Type 0} (calls : ListenerCalls K) : Type 0 where
  pub thread_of : K → ℕ → ℕ
  pub posts :
      (k : K) (w m : ℕ)
      → (calls.post_message k w m).1 ≢ 0
      → calls.messages_of (calls.post_message k w m).0 (thread_of k w)
        ≡ calls.messages_of k (thread_of k w) ++ received m ∷ []
  pub leaves :
      (k : K) (w m t : ℕ)
      → t ≢ thread_of k w
      → calls.messages_of (calls.post_message k w m).0 t ≡ calls.messages_of k t

module _ (answers : WindowCalls) (codes : WindowCodes) where
  message_loop-closed :
      (message_of : ℕ → WindowMessage) (ms : List ℕ)
      → NoneCloses message_of codes ms
      → (message_loop answers codes (map received ms ++ received codes.wm_close ∷ [])).1
        ≡ some (ok tt)
  message_loop-closed message_of [] h = ground arith
  message_loop-closed message_of (m ∷ ms) h = rw h.0 (message_loop-closed message_of ms h.1)

  -- A window that is created, with no registration refused.
  pub record Opens (message_of : ℕ → WindowMessage) (gs : NotificationRegistry) : Type 0 where
    pub by_default : message_of codes.wm_close ≡ other
    pub created : (answers.create_window == 0) ≡ false
    pub user_data : (answers.previous_user_data == 0 && not (answers.user_data_error == 0)) ≡ false
    pub registered :
        AllRegister message_of codes answers answers.create_window codes.notify_window_handle gs

  dropped_guards-result :
      (w : ℕ) (held : List ℕ) (cs ds : List Call) (r : Result (Unit {0}) ℕ)
      (loop : List Call × Option (Result (Unit {0}) ℕ))
      → loop.1 ≡ some r
      → (then_calls cs (then_calls ds (dropped_guards answers codes w held loop))).1 ≡ some r
  dropped_guards-result w held cs ds r (ls, none) e = cc
  dropped_guards-result w held cs ds r (ls, some r') e = e

  dispatcher-closed :
      (message_of : ℕ → WindowMessage) (gs : NotificationRegistry) (ms : List ℕ)
      → Opens message_of gs
      → NoneCloses message_of codes ms
      → (device_notification_window_dispatcher answers codes gs
          (map received ms ++ received codes.wm_close ∷ [])).1
        ≡ some (ok tt)
  unfolding device_notification_window_dispatcher create_device_notification_window
  dispatcher-closed message_of gs ms o n =
      let w = answers.create_window in
      let (rs, ns, er) =
        register_from-AllRegister message_of codes answers w codes.notify_window_handle [] gs
          o.registered in
      rw (o.created, o.user_data, er)
        (dropped_guards-result w ns (window_created w ∷ []) rs (ok tt)
          (message_loop answers codes (map received ms ++ received codes.wm_close ∷ []))
          (message_loop-closed message_of ms n))

  -- A close that finds a window, and whose message is taken, joins the thread.
  close-joins :
      {K : Type 0} (calls : ListenerCalls K) (k : K) (l : Listener) (t : Thread) (atom : ℕ)
      → l.join_handle ≡ some t
      → t.atom ≡ some atom
      → calls.find_window k (to_wide l.window) ≢ 0
      → (calls.post_message k (calls.find_window k (to_wide l.window)) codes.wm_close).1 ≢ 0
      → ((close calls answers codes k l).0
          ≡ (calls.post_message k (calls.find_window k (to_wide l.window)) codes.wm_close).0)
        × ((close calls answers codes k l).1 ≡ record l { join_handle = none })
  unfolding close
  close-joins calls k l t atom handle got found took = ground arith

  close-result :
      {K : Type 0} (calls : ListenerCalls K) (k : K) (l : Listener) (t : Thread) (atom : ℕ)
      → l.join_handle ≡ some t
      → t.atom ≡ some atom
      → calls.find_window k (to_wide l.window) ≢ 0
      → (calls.post_message k (calls.find_window k (to_wide l.window)) codes.wm_close).1 ≢ 0
      → (device_notification_window_dispatcher answers codes t.registrations (
          calls.messages_of
            (calls.post_message k (calls.find_window k (to_wide l.window)) codes.wm_close).0
            t.id)).1
        ≡ some (ok tt)
      → (close calls answers codes k l).2 ≡ some (ok tt)
  unfolding close
  close-result calls k l t atom handle got found took e = ground arith

  -- Let a listener's window be created, with its registrations, by a thread that has the class; let the
  -- kernel find that window by the listener's name, and take the message; and let none of the messages
  -- that wait for the thread close the window. Then `close` returns, with success, and the listener has no
  -- thread to join. However polls come in between the messages that reach the window's procedure, they
  -- return, followed by what is still queued, what was queued, the events of the waiting messages, in
  -- order, and the end of the stream.
  pub close-ends :
      {K : Type 0} (calls : ListenerCalls K) (laws : PostLaws calls)
      (message_of : ℕ → WindowMessage) (evs : EventCodes) (k : K) (l : Listener) (t : Thread)
      (atom : ℕ) (ms : List ℕ) (es : List Event) (s : Shared)
      → l.join_handle ≡ some t
      → t.atom ≡ some atom
      → Opens message_of t.registrations
      → calls.find_window k (to_wide l.window) ≢ 0
      → laws.thread_of k (calls.find_window k (to_wide l.window)) ≡ t.id
      → (calls.post_message k (calls.find_window k (to_wide l.window)) codes.wm_close).1 ≢ 0
      → calls.messages_of k t.id ≡ map received ms
      → NoneCloses message_of codes ms
      → NoScans es
      → windows_of es
        ≡ sent message_of codes true
            (device_notification_window_dispatcher answers codes t.registrations
              (calls.messages_of (close calls answers codes k l).0 t.id)).0
      → ((close calls answers codes k l).2 ≡ some (ok tt))
        × ((close calls answers codes k l).1 ≡ record l { join_handle = none })
        × (Order.received evs es s ++ (run evs es s).queue
            ≡ s.queue ++ (brought evs (map Order.window (map message_of ms)) ++ none ∷ []))
  close-ends calls laws message_of evs k l t atom ms es s handle got opens found own took waiting n
        none_scans all =
      let w = calls.find_window k (to_wide l.window) in
      let k' = (calls.post_message k w codes.wm_close).0 in
      let (left, after) = close-joins calls k l t atom handle got found took in
      let posted : calls.messages_of k' t.id ≡ map received ms ++ received codes.wm_close ∷ [] =
        rw (← own, laws.posts k w codes.wm_close took, own, waiting) refl in
      (
        close-result calls k l t atom handle got found took
            (rw posted (dispatcher-closed message_of t.registrations ms opens n)),
        after,
        dispatcher-ends message_of codes answers evs t.registrations ms (received codes.wm_close) []
            es s opens.by_default opens.created opens.user_data opens.registered n refl none_scans
            (rw (left, posted) at all),
      )
