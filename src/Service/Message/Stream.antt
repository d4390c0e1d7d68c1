-- ===== src/Service/Message/Stream.antt =====
-- `service_control_message_handler` and `ServiceMessageStream::poll_next` of
-- crates/service/src/message.rs: the queue between the control handler and the service.
use msft.Service.Message.{Controls, EventCodes, EventData, ServiceMessage, Parsed, try_parse}
use mathlib.Core.List.{append_assoc, append-nil}
use msft.Service.Message.{stop, preshutdown, shutdown}
use msft.Prelude.{
  refl, sym, ℕ, List, [], ◌∷◌, ◌++◌, Option, none, some, Faulty, Poll, map, ok, pending, ready, ◌≡◌,
  err, sym,
}
use msft.Prelude.Wakers.{Waker, update_waker}

-- `messages` is the queue, the oldest first.
pub record State : Type 0 where
  pub messages : List ServiceMessage
  pub waker : Option Waker

abbrev pub default : State
default = record { messages = []; waker = none }

abbrev pub push : ServiceMessage → State → State
push m s = record s { messages = s.messages ++ m ∷ [] }

abbrev pub deliver : State → Faulty Parsed → Faulty (State × Option Waker)
deliver s none = none
deliver s (some (ok m)) = some (push m s, s.waker)
deliver s (some (err e)) = some (s, none)

-- `service_control_message_handler`, with the waker that it wakes; it returns `NO_ERROR` always.
unfoldable pub handler :
    Controls → EventCodes → ℕ → ℕ → EventData → State → Faulty (State × Option Waker)
handler k codes control event_type d s = deliver s (try_parse k codes control event_type d)

-- What the stream returns for the message that it has popped.
abbrev pub item : ServiceMessage → Option ServiceMessage
item stop = none
item preshutdown = none
item shutdown = none
item m = some m

-- The rest of `poll_next` after its pop.
abbrev pub popped : Waker → List ServiceMessage → State → State × Poll (Option ServiceMessage)
popped cx [] s = (record s { waker = update_waker s.waker cx }, pending)
popped cx (m ∷ ms) s = (record s { messages = ms }, ready (item m))

unfoldable pub poll_next : Waker → State → State × Poll (Option ServiceMessage)
poll_next cx s = popped cx s.messages s

-- What happens to a stream: the handler is called, or the service polls.
pub data Event : Type 0 where
  control : (code event_type : ℕ) → EventData → Event
  polls : Waker → Event

abbrev pub handled : State → Faulty (State × Option Waker) → State
handled s none = s
handled s (some r) = r.0

abbrev pub message_of : Faulty Parsed → List ServiceMessage
message_of (some (ok m)) = m ∷ []
message_of _ = []

abbrev pub returned : Poll (Option ServiceMessage) → List (Option ServiceMessage)
returned pending = []
returned (ready i) = i ∷ []

module _ (k : Controls) (codes : EventCodes) where
  abbrev pub happen : Event → State → State
  happen (control c t d) s = handled s (handler k codes c t d s)
  happen (polls cx) s = (poll_next cx s).0

  abbrev pub run : List Event → State → State
  run [] s = s
  run (e ∷ es) s = run es (happen e s)

  -- The messages that the events bring.
  abbrev pub sent : List Event → List ServiceMessage
  sent [] = []
  sent (control c t d ∷ es) = message_of (try_parse k codes c t d) ++ sent es
  sent (polls cx ∷ es) = sent es

  -- The items that the polls return.
  abbrev pub received : List Event → State → List (Option ServiceMessage)
  received [] s = []
  received (control c t d ∷ es) s = received es (happen (control c t d) s)
  received (polls cx ∷ es) s = returned (poll_next cx s).1 ++ received es (happen (polls cx) s)

deliver-messages :
    (s : State) (p : Faulty Parsed)
    → (handled s (deliver s p)).messages ≡ s.messages ++ message_of p
deliver-messages s none = sym (append-nil s.messages)
deliver-messages s (some (ok m)) = refl
deliver-messages s (some (err e)) = sym (append-nil s.messages)

handler-messages :
    (k : Controls) (codes : EventCodes) (c t : ℕ) (d : EventData) (s : State)
    → (handled s (handler k codes c t d s)).messages
      ≡ s.messages ++ message_of (try_parse k codes c t d)
unfolding handler
handler-messages k codes c t d s = deliver-messages s (try_parse k codes c t d)

popped-messages :
    (cx : Waker) (ms rest : List ServiceMessage) (s : State)
    → s.messages ≡ ms
    → returned (popped cx ms s).1 ++ map item ((popped cx ms s).0.messages ++ rest)
      ≡ map item (ms ++ rest)
popped-messages cx [] rest s h = rw h refl
popped-messages cx (m ∷ ms) rest s h = refl

poll_next-messages :
    (cx : Waker) (rest : List ServiceMessage) (s : State)
    → returned (poll_next cx s).1 ++ map item ((poll_next cx s).0.messages ++ rest)
      ≡ map item (s.messages ++ rest)
unfolding poll_next
poll_next-messages cx rest s = popped-messages cx s.messages rest s refl

-- The stream is a queue: over any calls of the handler and any polls, what the polls return, followed
-- by what is still queued, is what was queued and what the calls brought, in order; stop, preshutdown
-- and shutdown are each returned as the end of the stream.
pub stream_fifo :
    (k : Controls) (codes : EventCodes) (es : List Event) (s : State)
    → received k codes es s ++ map item (run k codes es s).messages
      ≡ map item (s.messages ++ sent k codes es)
stream_fifo k codes [] s = rw (append-nil s.messages) refl
stream_fifo k codes (control c t d ∷ es) s =
    rw
      (
        stream_fifo k codes es (happen k codes (control c t d) s),
        handler-messages k codes c t d s,
        append_assoc,
      )
      refl
stream_fifo k codes (polls cx ∷ es) s =
    rw
      (
        append_assoc,
        stream_fifo k codes es (poll_next cx s).0,
        poll_next-messages cx (sent k codes es) s,
      )
      refl
