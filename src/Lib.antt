-- ===== src/Lib.antt =====
-- A model of the crates msft-runtime (crates/runtime), msft-service (crates/service) and service-macros
-- (crates/service-macros): thread pool waits, timers and work as futures and streams, event objects, a
-- line codec and serial port settings; the messages and the status of the service control manager, the
-- registry scan and the tracking of serial ports, registry values, wide strings and GUIDs; and the code
-- that the macros of a service generate.
--
-- How the parts interact. The kernel calls back on threads of its own: it resolves a wait
-- (`wait_callback`), queues a timeout (`timer_callback`), runs a worker (`work_once_callback`) or hands
-- over a service message (`service_control_message_handler`). Each callback puts down its result in a
-- shared state and wakes the waker in it; the future or stream polls the shared state and leaves its
-- waker there. A timer is handed out under a watch, whose signal tells the pool that the timer is done.
-- The service stream parses messages with the power and device readers; tracking turns plug events
-- into ports, each with a sender that resolves a future when the port is unplugged: it scans two
-- registry keys for the ids of the port, and compares them with those it was told to track. The macros
-- generate the table of services and the functions in it, which register a status handle and run the
-- code of the service.
--
-- Which file models which code. A function has the name that it has in the source.
--   Runtime/Lines.antt            crates/runtime/src/codec/lines.rs; Lines/Utf8 is `str::from_utf8`
--   Runtime/Watch.antt            crates/runtime/src/futures/watch.rs
--   Runtime/Wait.antt             crates/runtime/src/wait/mod.rs
--   Runtime/Timer.antt            crates/runtime/src/timer/mod.rs
--   Runtime/Event.antt            crates/runtime/src/event/mod.rs; Event/Handles is its owned and its
--                                 borrowed handle
--   Runtime/Environment.antt      crates/runtime/src/common/environment.rs
--   Runtime/FileTime.antt         the durations and file times of wait/mod.rs and timer/mod.rs
--   Runtime/Handles.antt          the thread pool handles of wait/mod.rs and timer/mod.rs, and
--                                 crates/runtime/src/common/mod.rs
--   Runtime/Callbacks.antt        crates/runtime/src/common/instance.rs and cleanup.rs
--   Runtime/Dropped.antt          the drop of a pool, beside its callbacks, of the same files
--   Runtime/Work.antt             crates/runtime/src/work/mod.rs; Work/Handle is its handle
--   Runtime/Usb.antt and below    crates/runtime/src/usb/mod.rs: flags, positions, controls, configure,
--                                 `DcbFlags` (Usb/DcbFlags), and what `Debug` shows (Usb/Shown)
--   Service/Message.antt          crates/service/src/message.rs: types and parsing
--   Service/Message/Stream.antt   the handler and the stream of the same file; Message/Services has
--                                 several services
--   Service/Text.antt             the texts of `Display` of the same file
--   Service/Power.antt            the power events of the same file
--   Service/Device.antt           crates/service/src/device.rs: plug events and tracking; below it,
--                                 `track` (Device/Track) and the future `Unplugged` (Device/Unplugged)
--   Service/Ports.antt            the `HashMap` of ports of the same file
--   Service/VidPid.antt           the vendor and product ids of the same file; VidPid/Registry reads
--                                 them from a value, VidPid/Hex and VidPid/Utf16 are of the standard library
--   Service/Scan.antt             `scan` and `scan_for` of the same file
--   Service/Listener.antt         the notification listener of the same file
--   Service/Window.antt           the thread of a listener, its window and message loop, of the same file;
--                                 Window/Class is the window class, Window/Close starts and closes a listener
--   Service/Status.antt           crates/service/src/status.rs
--   Service/Hkey.antt             crates/service/src/util/hkey.rs; Hkey/Text is the text of its error,
--                                 Hkey/Owned has the calls on a key until it is closed
--   Service/Wait.antt             crates/service/src/util/wait.rs; Wait/Pool has the kernel calls of its pool
--                                 and Wait/Lifetime the callback beside them
--   Service/Event.antt            `Event` of the same file
--   Service/Wchar.antt            crates/service/src/util/wchar.rs; Wchar/WindowText is `get_window_text`
--   Service/Guid.antt             crates/service/src/util/guid.rs
--   Macros/Syntax.antt            the syntax trees that crates/service-macros/src/service.rs reads
--   Macros/Dispatcher.antt        `start_service_ctrl_dispatcher` of the same file
--   Macros/Meta.antt              the options of the attribute `service` of the same file
--   Macros/Service.antt           the attribute `service` of the same file; Service/Main calls the function
--                                 that it generates
-- The files below a component hold its theorems; Prelude holds what the components share, with the
-- slot of a waker and the tasks that sleep on it (Prelude/Wakers) and a task that polls while others
-- wake it (Prelude/Tasks); Examples hold concrete runs.
--
-- How state is modelled. A struct is a record and an enum a data type. An operation takes the state and
-- returns the new one, with the waker that it wakes. Code under a mutex is one step; where the source
-- holds no lock, or where the lock matters, the files named Race take every access as a step of its own.
-- A waker is the number of its task. Panics and reads out of bounds are `none` of `Faulty`. Numbers are
-- natural, with the wrap-around of u32 and u64 written out. A queue without a bound is a list, and the
-- bounded queue of timeouts is its length. The `HashMap` of tracked ports is an association list; where only
-- what it maps matters, a quotient of these (Scan/Unordered).
--
-- Parameters. The constants of windows_sys are records (WaitCodes, CommCodes, Controls, EventCodes,
-- PowerCodes, PowerGuids, RegistryCodes, StatusCodes, EnvironmentCodes, WindowCodes), with what the code
-- relies on: two wait codes differ, and the controls of a port have different codes of two bits. The
-- kernel's answers are parameters too: Port for a serial port, Key for a registry key, EventCalls,
-- PoolCalls and WindowCalls for event objects, thread pools and windows, with EventLaws for what Win32
-- documents of events, Asked for the inner stream and the event objects of a tracked port, and the memory
-- behind a pointer (EventData, a list of units behind a wide string). Answers are what the kernel returns
-- where handles are created, and ListenerCalls are the calls by which windows are found and closed, with
-- what Win32 documents of them (PostLaws, Opens, ClassLaws); so are the parser of GUIDs and
-- `GetWindowTextW`. For the macros, so are parsing, the identifier of a path, upper case, what an
-- identifier is, and whether a runtime can be built.
--
-- Fuel. Collecting the values of a registry key takes one call of `next` for each value and one more,
-- which is what a scan has. Every other loop is by recursion on its list.
--
-- Not modelled. The derived `Debug` texts and serde; in crates/service/src/device.rs, the counts of the
-- references that the thread and the window share; programs and examples.
pub mod Macros
pub mod Prelude
pub mod Runtime
pub mod Service
