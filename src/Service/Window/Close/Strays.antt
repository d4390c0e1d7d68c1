-- ===== src/Service/Window/Close/Strays.antt =====
-- Several listeners of one process, and a listener that is closed twice (crates/service/src/device.rs).
use msft.Service.Window.Close.{
  ListenerCalls, Listener, Thread, already_closed, spawn, close, drop_listener,
}
use msft.Service.Window.Close.Closed.{PostLaws}
use msft.Service.Window.Class.{
  ClassLaws, get_window_class, get_window_class-registered, get_window_class-again,
}
use msft.Service.Window.{received, NotificationRegistry, WindowCalls, WindowCodes}
use msft.Service.Listener.{Shared}
use msft.Service.Wchar.{OsString, to_wide}
use msft.Prelude.{ℕ, ◌≡◌, ◌≢◌, List, [], ◌∷◌, ◌++◌, none, some, Result, ok, err, arith, refl}

module _ {K : Type 0} (calls : ListenerCalls K) (answers : WindowCalls) (codes : WindowCodes) where
  -- The thread of a listener got the window class.
  abbrev pub HasClass : Listener → Type 0
  HasClass l = (t : Thread) × (atom : ℕ) × (l.join_handle ≡ some t) × (t.atom ≡ some atom)

  -- Its thread panicked for lack of it.
  abbrev pub HasPanicked : Listener → Type 0
  HasPanicked l = (t : Thread) × (l.join_handle ≡ some t) × (t.atom ≡ none)

  spawn-HasClass :
      {E : Type 0} (k : K) (found : Result (List OsString) E) (id : ℕ) (gs : NotificationRegistry)
      (name : OsString) (s : Shared) (l : Listener)
      → (spawn calls answers codes k found id gs name).1 ≡ ok (s, l)
      → HasClass l
      → ((get_window_class calls.register_class k).1 ≢ none)
        × ((spawn calls answers codes k found id gs name).0
            ≡ (get_window_class calls.register_class k).0)
  unfolding spawn
  spawn-HasClass k (ok ports) id gs name s l e (t, atom, h, a) = ground arith
  spawn-HasClass k (err x) id gs name s l e c = cc

  spawn-HasPanicked :
      {E : Type 0} (k : K) (found : Result (List OsString) E) (id : ℕ) (gs : NotificationRegistry)
      (name : OsString) (s : Shared) (l : Listener)
      → (spawn calls answers codes k found id gs name).1 ≡ ok (s, l)
      → (get_window_class calls.register_class k).1 ≡ none
      → HasPanicked l
  unfolding spawn
  spawn-HasPanicked k (ok ports) id gs name s l e n =
      (record { id = id; registrations = gs; atom = none }, ground arith, refl)
  spawn-HasPanicked k (err x) id gs name s l e n = cc

  close-HasPanicked :
      (k : K) (l : Listener) → HasPanicked l → (close calls answers codes k l).2 ≢ some (ok tt)
  unfolding close
  close-HasPanicked k l (t, h, a) = ground arith

  -- Once a listener's thread has the window class, and the class stays registered, the thread of any
  -- listener that is spawned later panics, and no close of that listener succeeds.
  pub spawn-second :
      {E F : Type 0} (laws : ClassLaws calls.register_class) (k k' k'' : K)
      (found : Result (List OsString) E) (found' : Result (List OsString) F) (id id' : ℕ)
      (gs gs' : NotificationRegistry) (name name' : OsString) (s s' : Shared) (l l' : Listener)
      → (spawn calls answers codes k found id gs name).1 ≡ ok (s, l)
      → HasClass l
      → laws.class_registered k'
        ≡ laws.class_registered (spawn calls answers codes k found id gs name).0
      → (spawn calls answers codes k' found' id' gs' name').1 ≡ ok (s', l')
      → HasPanicked l' × ((close calls answers codes k'' l').2 ≢ some (ok tt))
  spawn-second laws k k' k'' found found' id id' gs gs' name name' s s' l l' e c stays e' =
      let (some_class, left) = spawn-HasClass k found id gs name s l e c in
      let registered = get_window_class-registered calls.register_class laws k some_class in
      let panicked =
        spawn-HasPanicked k' found' id' gs' name' s' l' e'
          (get_window_class-again calls.register_class laws k' (rw (stays, left) registered)) in
      (panicked, close-HasPanicked k'' l' panicked)

  -- A listener that is closed has no thread to join, and yet, where a window has its name, a further close
  -- of it, or its drop, sends that window's thread a close message; and it fails as closed already.
  pub close-stray :
      (laws : PostLaws calls) (k : K) (l : Listener)
      → l.join_handle ≡ none
      → calls.find_window k (to_wide l.window) ≢ 0
      → (calls.post_message k (calls.find_window k (to_wide l.window)) codes.wm_close).1 ≢ 0
      → ((close calls answers codes k l).2 ≡ some (err already_closed))
        × (calls.messages_of
              (drop_listener calls answers codes k l)
              (laws.thread_of k (calls.find_window k (to_wide l.window)))
            ≡ calls.messages_of k (laws.thread_of k (calls.find_window k (to_wide l.window)))
              ++ received codes.wm_close ∷ [])
  unfolding close
  close-stray laws k l closed found took =
      ground (arith, laws.posts k (calls.find_window k (to_wide l.window)) codes.wm_close took)
