-- ===== src/Service/Window/Guards.antt =====
-- What the thread of a notification listener (crates/service/src/device.rs) opens, it closes.

-- The handles of the calls of one kind, in order.
use mathlib.Core.List.{append_assoc, append-nil}
use msft.Service.Window.{
  window_created, window_destroyed, registered, unregistered, quit_received, get_failed, received,
  listening, create_device_notification_window, device_notification_window_dispatcher,
  dropped_guards, register,
}
use msft.Service.Window.{
  Call, GetMessage, NotificationRegistry, WindowCalls, WindowCodes, message_loop, register_from,
  then_calls, unregister_all,
}
use msft.Prelude.{
  Bool-cases, List, Option, Option-cases, Result, [], ap, err, inl, inr, none, ok, refl, some, sym,
  ℕ, ◌++◌, ◌==◌, ◌∙◌, ◌∷◌, ◌≡◌, if◌then◌else◌, not, ◌&&◌,
}

abbrev consed : Option ℕ → List ℕ → List ℕ
consed none ns = ns
consed (some n) ns = n ∷ ns

abbrev pub picked : (Call → Option ℕ) → List Call → List ℕ
picked f [] = []
picked f (c ∷ cs) = consed (f c) (picked f cs)

abbrev pub created_by : Call → Option ℕ
created_by (window_created n) = some n
created_by c = none

abbrev pub destroyed_by : Call → Option ℕ
destroyed_by (window_destroyed n) = some n
destroyed_by c = none

abbrev pub registered_by : Call → Option ℕ
registered_by (registered n) = some n
registered_by c = none

abbrev pub unregistered_by : Call → Option ℕ
unregistered_by (unregistered n) = some n
unregistered_by c = none

picked-append :
    (f : Call → Option ℕ) (cs ds : List Call) → picked f (cs ++ ds) ≡ picked f cs ++ picked f ds
picked-append f [] ds = refl
picked-append f (c ∷ cs) ds = elim (Option-cases (f c)) [
  | inl e ↦ rw (e, picked-append f cs ds) refl
  | inr (n, e) ↦ rw (e, picked-append f cs ds) refl
]

-- Calls that open and close no window, and that close this list of registrations.
abbrev Closes : List ℕ → List Call → Type 0
Closes ns cs =
    (picked created_by cs ≡ []) × (picked destroyed_by cs ≡ []) × (picked unregistered_by cs ≡ ns)

unregister_all-Closes :
    (ns : List ℕ) → Closes ns (unregister_all ns) × (picked registered_by (unregister_all ns) ≡ [])
unregister_all-Closes [] = ((refl, refl, refl), refl)
unregister_all-Closes (n ∷ ns) =
    let ((c, d, u), r) = unregister_all-Closes ns in ((c, d, ap (λ x. n ∷ x) u), r)

-- Registering on top of what is held: a failure closes all of it, and else all of it is held on.
abbrev Registers : List ℕ → List Call × Result (List ℕ) ℕ → Type 0
Registers held (cs, err e) = Closes (held ++ picked registered_by cs) cs
Registers held (cs, ok ns) = Closes [] cs × (ns ≡ held ++ picked registered_by cs)

Registers-cons :
    (held : List ℕ) (n : ℕ) (r : List Call × Result (List ℕ) ℕ)
    → Registers (held ++ (n ∷ [])) r
    → Registers held (then_calls (registered n ∷ []) r)
Registers-cons held n (cs, err e) (c, d, u) =
    (c, d, u ∙ append_assoc held (n ∷ []) (picked registered_by cs))
Registers-cons held n (cs, ok ns) (k, e) =
    (k, e ∙ append_assoc held (n ∷ []) (picked registered_by cs))

module _ (calls : WindowCalls) (codes : WindowCodes) where
  register_from-Registers :
      (recipient kind : ℕ) (held : List ℕ) (gs : NotificationRegistry)
      → Registers held (register_from calls codes recipient kind held gs)
  register_from-Registers recipient kind held [] = ((refl, refl, refl), sym (append-nil held))
  register_from-Registers recipient kind held (g ∷ gs) =
      let n = calls.register_notification recipient g kind in
      elim (Bool-cases (n == 0)) [
        | inl e ↦
            let ((c, d, u), r) = unregister_all-Closes held in
            rw (e, r) (c, d, u ∙ sym (append-nil held))
        | inr e ↦ rw e (
            Registers-cons held n (register_from calls codes recipient kind (held ++ (n ∷ [])) gs)
              (register_from-Registers recipient kind (held ++ (n ∷ [])) gs))
      ]

  message_loop-Closes :
      (ms : List GetMessage)
      → Closes [] (message_loop calls codes ms).0
        × (picked registered_by (message_loop calls codes ms).0 ≡ [])
  message_loop-Closes [] = ((refl, refl, refl), refl)
  message_loop-Closes (quit_received ∷ ms) = ((refl, refl, refl), refl)
  message_loop-Closes (get_failed ∷ ms) = ((refl, refl, refl), refl)
  message_loop-Closes (received m ∷ ms) = elim (Bool-cases (m == codes.wm_close)) [
    | inl e ↦ rw e ((refl, refl, refl), refl)
    | inr e ↦ rw e (message_loop-Closes ms)
  ]

  -- While the thread runs it closes nothing; at its end it has closed this list of windows, and the
  -- registrations it made.
  abbrev pub Guarded : (closed : List ℕ) → List Call × Option (Result (Unit {0}) ℕ) → Type 0
  Guarded closed (cs, none) = (picked destroyed_by cs ≡ []) × (picked unregistered_by cs ≡ [])
  Guarded closed (cs, some r) =
      (picked destroyed_by cs ≡ closed) × (picked unregistered_by cs ≡ picked registered_by cs)

  looped-Guarded :
      (window : ℕ) (cs : List Call) (ns : List ℕ) (loop : List Call × Option (Result (Unit {0}) ℕ))
      → Closes [] cs
      → ns ≡ picked registered_by cs
      → Closes [] loop.0
      → picked registered_by loop.0 ≡ []
      → (picked created_by (then_calls cs (dropped_guards calls codes window ns loop)).0 ≡ [])
        × Guarded (window ∷ []) (then_calls cs (dropped_guards calls codes window ns loop))
  looped-Guarded window cs ns (ls, none) (c, d, u) e (lc, ld, lu) lr =
      (simp (picked-append, c, lc), (simp (picked-append, d, ld), simp (picked-append, u, lu)))
  looped-Guarded window cs ns (ls, some r) (c, d, u) e (lc, ld, lu) lr =
      let ((uc, ud, uu), ur) = unregister_all-Closes ns in
      (
        simp (picked-append, c, lc, uc),
        (simp (picked-append, d, ld, ud), simp (picked-append, u, lu, uu, lr, ur, ← e, append-nil)),
      )

  listening-Guarded :
      (window : ℕ) (ms : List GetMessage) (r : List Call × Result (List ℕ) ℕ)
      → Registers [] r
      → (picked created_by (listening calls codes window ms r).0 ≡ [])
        × Guarded (window ∷ []) (listening calls codes window ms r)
  listening-Guarded window ms (cs, err e) (c, d, u) =
      (simp (picked-append, c), (simp (picked-append, d), simp (picked-append, u, append-nil)))
  listening-Guarded window ms (cs, ok ns) (k, e) =
      let (l, lr) = message_loop-Closes ms in
      looped-Guarded window cs ns (message_loop calls codes ms) k e l lr

  created-Guarded :
      (window : ℕ) (l : List Call × Option (Result (Unit {0}) ℕ))
      → (picked created_by l.0 ≡ []) × Guarded (window ∷ []) l
      → Guarded
          (picked created_by (then_calls (window_created window ∷ []) l).0)
          (then_calls (window_created window ∷ []) l)
  created-Guarded window (cs, none) (c, g) = g
  created-Guarded window (cs, some r) (c, (d, u)) = (rw c d, u)

  -- The thread of a listener closes every registration that it made, in order, and its window, when it
  -- ends, however it ends: by a close or a quit message, a failure to get one, or a refused
  -- registration, in which case only the registrations made before it are there. Before that it closes
  -- nothing. But a window that does not take its user data is left open.
  pub dispatcher-Guarded :
      (gs : NotificationRegistry) (ms : List GetMessage)
      → Guarded
          (if calls.previous_user_data == 0 && not (calls.user_data_error == 0)
            then []
            else picked created_by (device_notification_window_dispatcher calls codes gs ms).0)
          (device_notification_window_dispatcher calls codes gs ms)
  unfolding device_notification_window_dispatcher create_device_notification_window
  dispatcher-Guarded gs ms = elim (Bool-cases (calls.create_window == 0)) [
    | inl e ↦
        elim (Bool-cases (calls.previous_user_data == 0 && not (calls.user_data_error == 0))) [
          | inl k ↦ rw (e, k) (refl, refl)
          | inr k ↦ rw (e, k) (refl, refl)
        ]
    | inr e ↦
        elim (Bool-cases (calls.previous_user_data == 0 && not (calls.user_data_error == 0))) [
          | inl k ↦ rw (e, k) (refl, refl)
          | inr k ↦
              let r = register calls codes calls.create_window codes.notify_window_handle gs in
              let all =
                register_from-Registers calls.create_window codes.notify_window_handle [] gs in
              rw (e, k)
                (created-Guarded calls.create_window
                  (listening calls codes calls.create_window ms r)
                  (listening-Guarded calls.create_window ms r all))
        ]
  ]
