-- ===== src/Service/Window/Sent.antt =====
-- What the thread of a notification listener (crates/service/src/device.rs) hands to the procedure of
-- its window.

use msft.Service.Window.{
  window_created, window_destroyed, registered, unregistered, dispatched, quit_received, get_failed,
  received, Call, create_device_notification_window, device_notification_window_dispatcher,
}
use msft.Service.Listener.{WindowMessage, destroy, other}
use msft.Service.Window.{
  GetMessage, NotificationRegistry, WindowCalls, WindowCodes, dispatched, message_loop,
  register_from, unregister_all,
}
use msft.Prelude.{
  Bool, Bool-cases, List, Result, [], arith, err, false, if◌then◌else◌, inl, inr, map, ok, refl,
  some, true, ℕ, ◌++◌, ◌==◌, ◌∷◌, ◌≡◌, ap, ◌∙◌, not, ◌&&◌,
}

module _ (message_of : ℕ → WindowMessage) (codes : WindowCodes) where
  abbrev destroyed_once : Bool → List WindowMessage
  destroyed_once true = destroy ∷ []
  destroyed_once false = []

  -- The messages that reach the procedure: those that are dispatched, and one when the window is
  -- destroyed, which closing it does by default, and its guard where it is still there.
  abbrev pub sent : (alive : Bool) → List Call → List WindowMessage
  sent alive [] = []
  sent alive (window_created w ∷ cs) = sent alive cs
  sent alive (window_destroyed w ∷ cs) = destroyed_once alive ++ sent false cs
  sent alive (registered n ∷ cs) = sent alive cs
  sent alive (unregistered n ∷ cs) = sent alive cs
  sent alive (dispatched m ∷ cs) =
      let closed = sent false cs in
      let going_on = sent alive cs in
      if m == codes.wm_close
      then message_of m ∷ (destroyed_once alive ++ closed)
      else message_of m ∷ going_on

  sent-unregister_all :
      (alive : Bool) (ns : List ℕ) (cs : List Call)
      → sent alive (unregister_all ns ++ cs) ≡ sent alive cs
  sent-unregister_all alive [] cs = refl
  sent-unregister_all alive (n ∷ ns) cs = sent-unregister_all alive ns cs

  -- Messages that do not close the window, and what ends the loop.
  abbrev pub NoneCloses : List ℕ → Type 0
  NoneCloses [] = Unit
  NoneCloses (m ∷ ms) = ((m == codes.wm_close) ≡ false) × NoneCloses ms

  abbrev pub EndsLoop : GetMessage → Type 0
  EndsLoop quit_received = Unit
  EndsLoop get_failed = Unit
  EndsLoop (received m) = m ≡ codes.wm_close

  -- What the end of the loop brings: a close is handled by default, which destroys the window.
  abbrev pub ending : GetMessage → List WindowMessage
  ending quit_received = destroy ∷ []
  ending get_failed = destroy ∷ []
  ending (received m) = other ∷ destroy ∷ []

  module _ (calls : WindowCalls) where
    sent-register_from :
        (recipient kind : ℕ) (held : List ℕ) (gs : NotificationRegistry) (cs : List Call)
        → sent true ((register_from calls codes recipient kind held gs).0 ++ cs) ≡ sent true cs
    sent-register_from recipient kind held [] cs = refl
    sent-register_from recipient kind held (g ∷ gs) cs =
        let n = calls.register_notification recipient g kind in
        elim (Bool-cases (n == 0)) [
          | inl e ↦ rw e (sent-unregister_all true held cs)
          | inr e ↦ rw e (sent-register_from recipient kind (held ++ (n ∷ [])) gs cs)
        ]

    -- What the loop and the guards send to the procedure.
    sent-message_loop :
        (w : ℕ) (ns : List ℕ) (ms : List ℕ) (last : GetMessage) (rest : List GetMessage)
        → message_of codes.wm_close ≡ other
        → NoneCloses ms
        → EndsLoop last
        → (cs : List Call) × (r : Result (Unit {0}) ℕ) × (message_loop calls codes
              (map received ms ++ (last ∷ rest))
            ≡ (cs, some r))
          × (sent true (cs ++ (unregister_all ns ++ (window_destroyed w ∷ [])))
              ≡ map message_of ms ++ ending last)
    sent-message_loop w ns [] quit_received rest by_default n e =
        ([], ok tt, refl, sent-unregister_all true ns (window_destroyed w ∷ []))
    sent-message_loop w ns [] get_failed rest by_default n e =
        ([], err calls.last_os_error, refl, sent-unregister_all true ns (window_destroyed w ∷ []))
    sent-message_loop w ns [] (received m) rest by_default n e =
        let close : (m == codes.wm_close) ≡ true = ground arith in
        let same : message_of m ≡ other = ap message_of e ∙ by_default in
        (
          dispatched m ∷ [],
          ok tt,
          rw close refl,
          rw (close, sent-unregister_all false ns (window_destroyed w ∷ []), same) refl,
        )
    sent-message_loop w ns (m ∷ ms) last rest by_default n e =
        let (cs, r, l, s) = sent-message_loop w ns ms last rest by_default n.1 e in
        (dispatched m ∷ cs, r, rw (n.0, l) refl, rw (n.0, s) refl)

    -- No registration is refused.
    abbrev pub AllRegister : (recipient kind : ℕ) → NotificationRegistry → Type 0
    AllRegister recipient kind [] = Unit
    AllRegister recipient kind (g ∷ gs) =
        ((calls.register_notification recipient g kind == 0) ≡ false)
        × AllRegister recipient kind gs

    pub register_from-AllRegister :
        (recipient kind : ℕ) (held : List ℕ) (gs : NotificationRegistry)
        → AllRegister recipient kind gs
        → (cs : List Call) × (ns : List ℕ) × (register_from calls codes recipient kind held gs
            ≡ (cs, ok ns))
    register_from-AllRegister recipient kind held [] h = ([], held, refl)
    register_from-AllRegister recipient kind held (g ∷ gs) h =
        let n = calls.register_notification recipient g kind in
        let (cs, ns, e) = register_from-AllRegister recipient kind (held ++ (n ∷ [])) gs h.1 in
        (registered n ∷ cs, ns, rw (h.0, e) refl)

    pub sent-dispatcher :
        (gs : NotificationRegistry) (ms : List ℕ) (last : GetMessage) (rest : List GetMessage)
        → message_of codes.wm_close ≡ other
        → (calls.create_window == 0) ≡ false
        → (calls.previous_user_data == 0 && not (calls.user_data_error == 0)) ≡ false
        → AllRegister calls.create_window codes.notify_window_handle gs
        → NoneCloses ms
        → EndsLoop last
        → (cs : List Call) × (r : Result (Unit {0}) ℕ) × (device_notification_window_dispatcher
              calls codes gs
              (map received ms ++ (last ∷ rest))
            ≡ (cs, some r))
          × (sent true cs ≡ map message_of ms ++ ending last)
    unfolding device_notification_window_dispatcher create_device_notification_window
    sent-dispatcher gs ms last rest by_default c u h n e =
        let w = calls.create_window in
        let (rs, ns, er) = register_from-AllRegister w codes.notify_window_handle [] gs h in
        let (ls, r, el, s) = sent-message_loop w ns ms last rest by_default n e in
        let t =
          sent-register_from w codes.notify_window_handle [] gs
            (ls ++ (unregister_all ns ++ (window_destroyed w ∷ []))) in
        (
          window_created w ∷ (rs ++ (ls ++ (unregister_all ns ++ (window_destroyed w ∷ [])))),
          r,
          rw (c, u, er, el) refl,
          (rw er at t) ∙ s,
        )
