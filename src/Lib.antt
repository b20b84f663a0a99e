-- ===== src/Lib.antt =====
-- Medusa AntiCheat: the Go code of the userland agent (MedusaUserlandAgent/) and of the backend
-- (MedusaBackend/), and of the C and C++ code of the kernel driver (MedusaKernelDriver/) and of the
-- injected DLL (MedusaUserDLL/) what makes the events and guards the process. The agent takes events
-- from three places: the kernel driver's communication port, a named pipe on which the injected DLL
-- writes, and its own scan of a process's modules. All go through one channel to a WebSocket client,
-- which sends the bytes of the event's struct; the backend takes every binary message of that size
-- for an event and prints it.
--
-- Event models the struct ACEvent of both Event.go files with Go's layout on a 64-bit Windows (3648
-- bytes, its padding open), `evToBytes` of MedusaUserlandAgent/WebSocketWorker.go and the copies through
-- `unsafe.Pointer` that read it back. Memory has the little-endian words and the layout of a struct that
-- it stands on. Text has Go's UTF-8 and UTF-16 (unicode/utf8, unicode/utf16, syscall.UTF16ToString) as
-- functions on bytes, units and runes, decimal numbers, and in Text/Json what encoding/json prints of
-- strings, integers and maps, with a reader of JSON that takes it back.
-- Event/Json is the map that ToJSON of both Event.go files gives to json.Marshal.
--
-- Agent is MedusaUserlandAgent/:
--   Agent/Buffers: StringZInto and its users, of structs.go.
--   Agent/Strings and Agent/Json: utf16ToString, int32ToString and ToJSON, of Event.go.
--   Agent/Pipe: Start, server, readLoop and drain, of IPC.go. `ReadFile` is a parameter;
--     the code calls it without an OVERLAPPED on an overlapped handle, so that a read may report too
--     early that it is complete.
--   Agent/Receiver: Receiver of structs.go, and its Loop of main.go.
--   Agent/Scanner: GetProcessModules and executeDLLScan, of DLLScanner.go. The toolhelp calls are a
--     parameter.
--   Agent/Client/Backoff: nextBackoff and the retries of run, of WebSocketWorker.go.
--   Agent/Client/Frame: the frames of eventPump and of SendJSON.
--   Agent/Client/Reader: the settings of HydraWS and its builders, and readLoop with its read deadline,
--     which does not hold for what the library has in its buffer.
--   Agent/Client/Pings: pingLoop with its ticker.
--   Agent/Client/Session: the goroutines of HydraWS (eventPump, run, readLoop, writeLoop, pingLoop,
--     callers of SendJSON, Close) as a step relation, one step per operation on what they share.
--   Agent/Main: main of main.go, with Sscanf's reading of the PID, and the callback of the client.
--   Agent/Windows: injectDLLIntoPID of Injector.go, ensureETWEnabled of ETWConsumer.go and
--     enableSeDebugPrivilege of DLLScanner.go, with a log of their calls and the handles in it.
-- Route puts Receiver.Loop, evToBytes and handleWS one after the other, and the command of the backend's
-- main and the agent's callback; Route/Lines goes on to the lines that the backend
-- prints, and Route/Frames puts the client's frames before handleWS.
-- Backend is MedusaBackend/:
--   Backend/Strings and Backend/Json: utf16ToString, utf16BufToString, int32ToString and ToJSON, of
--     Event.go. Backend/Printed has both sides' ToJSON beside each other.
--   Backend/Stored: what these make of the buffers that the agent fills.
--   Backend/Main: what the consumer of main of Main.go prints.
--   Backend/Server: HydraWSServer of WSServer.go and the two loops of Main.go's main as a step
--     relation over the map of connections, its RWMutex and the two channels.
--   Backend/Server/Reader: the loop of handleWS in time, with the read deadline that pongs move on.
-- Route/Pipeline runs the client and the server beside each other: the messages that a handler reads are
-- the frames that were written on its connection, in order.
-- Driver is MedusaKernelDriver/:
--   Driver/Strings: wcsncpy_s on arrays of wchar_t and of int, and what the backend makes of them.
--   Driver/Notify: the three notify routines of NotifyRoutine.c, each with the event that it sends.
--   Driver/Callback: CreateCallback of Callback.c and MinifltPortNotifyRoutine of Coms.c;
--     Driver/Rights: what these leave of the rights to the protected process.
--   Driver/Entry: DriverEntry and FilterUnloadCallback of Main.c, and what the driver holds of the system.
--   Driver/Events: the notices of the system and the messages that they lead to; Driver/Events/Lines goes
--     on, over the agent and the backend, to the lines that the backend prints.
-- Dll is MedusaUserDLL/MedusaDLL/MedusaDLL/: the events of dllmain.cpp and SendIPCMessageRaw of IPC.c, and
--   in Dll/Lines their way to the backend's lines.
-- Common has the shared names, tests on numbers and lists; Tests runs the definitions.
--
-- A number is the bit pattern of its Go type, a string its UTF-8 bytes, a buffer a list of its length.
-- Windows, gorilla/websocket and golang.org/x/sys are parameters, with their documented behaviour as
-- named hypotheses. The endless loops of the pipe, of its drain and of the module scan take fuel; their
-- theorems give the fuel from the number of reads or entries that the parameter has, and prove that
-- the loop then returns. Receiver.Loop and the server's loop take the answers of their calls as a list.
--
-- In the two step relations a step may be taken whenever its guard holds, also after a panic: what
-- else runs before the process ends is left open. A connection is named by a number. In
-- Agent/Client/Session the error of a connection may come at any time, and the select of `run` ends a
-- session at any time; in Backend/Server so do failed reads and writes. The write deadlines and the
-- HTTP upgrade are left out, and the read deadlines are in Agent/Client/Reader and
-- Backend/Server/Reader only, which take what arrives, and when, as a list; the latter leaves aside
-- what the library would still hand out of its buffer behind the deadline. In Route/Pipeline the
-- client's dial and the server's handler of one connection have the same number.
--
-- In Driver a text is the list of its UTF-16 units, and a handle or an address 64 bits, of which an int
-- takes the lower half; the operating system's answers are arguments. A routine that reads through a
-- null pointer, or gives the system a handle that is NULL or freed, has an outcome of its own.
--
-- Not modelled: the prints other than the consumer's, the signal handling of the backend's main,
-- which it does not reach, enrich in both Event.go files, which is commented out, and of what is not
-- Go: the driver's replies to messages from user mode, which nothing sends, and its requests, which
-- nothing makes, the installation of the DLL's hook by MinHook, and the Python receiver.
pub mod Common
pub mod Memory
pub mod Event
pub mod Text
pub mod Agent
pub mod Backend
pub mod Dll
pub mod Driver
pub mod Route
pub mod Tests
