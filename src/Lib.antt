-- ===== src/Lib.antt =====
-- The Test Runner: a server that injects input events into Linux through uinput on behalf of RPC
-- clients, and a recorder that writes the events of real input devices to a file from which they
-- can be played back. This library models the server, the recorder, the client's side of the
-- calls, the two plugins and the two programs, and proves what they do.
--
-- The server (server/TestRunnerServer.cpp, server/TestRunnerServer.h) creates four virtual
-- devices, compiles a keymap, and answers two RPC interfaces: Input, whose handlers write events
-- to the virtual devices, and Recorder, whose handlers keep a table of recorders. A recorder
-- (recorder/TestRunnerRecorder.cpp, recorder/TestRunnerRecorder.h) scans the input devices, and
-- runs a thread that reads events, scales touches, resolves keysyms and writes lines to a file; a
-- continuous recorder keeps them in a buffer instead, which a second thread trims and dumps. A
-- client (client/TestRunnerClient.cpp, client/RPCClient.h) sends the calls. Of the plugins,
-- agl_health answers with the metrics that a daemon gives as JSON, and weston_screenshooter with a
-- picture of the screen.
--
-- Prelude, with Prelude/Tests, Prelude/Lists and Prelude/Int: the native numbers, lists, bytes,
-- and signed integers with C's conversions. Linux: the constants and structs of the input ABI.
-- Syscalls: recorder/SyscallInterface.h; every system call is a value, the kernel a function from
-- the history of calls to the reply, so a theorem for every kernel covers every failure and
-- interleaving of replies. Xkb: the calls of libxkbcommon, as a parameter.
--
-- Server is the state with getDeviceFd; Server/Setup the setup_virtual_* functions and setup_xkb;
-- Server/Keysym resolve_keysym; Server/Input emit and the handlers handleMouseMove,
-- handleMouseClick, handleKeyPress, handleSingleTouch, handleMultiTouch, handlePassThrough with
-- the structs of capnp/test_runner.capnp; Server/Recorders the handlers getSnapshot,
-- createCustomRecorder, listDevices, setDevicesToRecord, startCustomRecording,
-- stopCustomRecording, checkRecorderActive; Server/Lifetime the constructor, the destructor and
-- close_input_device. The calls of the Recorder interface in any sequence are the step relation of
-- Server/Recorders/Life. The children of each prove its theorems.
--
-- Recorder is the data; Recorder/Devices findDevices; Recorder/Mask setDevicesToRecord and the
-- choice in Record; Recorder/Touch transform_touch_coordinates; Recorder/Text current_time_str and
-- the lines of a recording; Recorder/Buffer the trimming and the dump of processBuffer;
-- Recorder/Process Start, Stop, isActive, is_done, Record and processBuffer as steps of two
-- threads; Recorder/Lifetime the constructor, setup_xkb and the destructor. A step of
-- Recorder/Process is what a thread does under one lock or with its own variables, with the
-- readings of the clock and the kernel's replies as arguments; a schedule is a list of steps, and
-- a method that joins a thread takes the schedule up to the end of the join. What a method does to
-- its caller is a value: it returns, throws, ends the process (std::terminate), or is blocked in a
-- join.
--
-- Client is the connection with Connect and waitWithTimeout, and the calls SendMouseMove to
-- SendPassThrough; Client/Recorders is the calls of the Recorder interface; Client/Connection,
-- Client/Delivery and Client/Recorders/Devices prove the theorems. The RPC runtime is a parameter;
-- what the client relies on is the hypothesis Delivers of Client/Delivery and the record Serves of
-- Client/Recorders/Devices: where an answer comes back, the server's handler has run. Screenshot
-- is plugins/weston_screenshooter/WestonScreenshooter.cpp, the listeners and capture() with its
-- ways out; the compositor's answers and events are a parameter, Machine. A capture whose dispatch
-- loop still waits has no result. Screenshot/Capture and Screenshot/Selection prove its theorems.
-- Tests holds a concrete kernel, keymap and states, and its children apply the theorems to them.
--
-- Health is plugins/agl_health: Health/Json the part of the JSON library that the plugin uses, as
-- a parameter, with the exceptions as values; Health/Metrics the structs of the interface, which
-- AglHealth_Client.h mirrors; Health/Fill the fill_ functions of AglHealth.cpp; Health/Handlers
-- fetchJson and the handlers, with libcurl as a parameter; Health/Client the decoders and calls of
-- AglHealth_Client.cpp. Health/Documented states what the documentation of the JSON library
-- promises of objects, arrays and numbers, and Tests/JsonValues is a library that keeps it. A Text
-- of the RPC schema is cut at its first zero byte. Health/Ranges, Health/Flat, Health/Report,
-- Health/Snapshot, Health/Arrays, Health/Fetching, Health/Answers and Health/Delivery prove the
-- theorems.
--
-- Programs is the two programs: Programs/Server is server/main.cpp and Programs/Recorder is
-- recorder/recorder.cpp, each from the results of getopt_long to its exit; the RPC loop up to the
-- signal and strtol are parameters. Programs/Described, Programs/Released and Programs/Winding
-- prove their theorems. Screenshot/Client is the call of
-- plugins/weston_screenshooter/WestonScreenshooter_Client.cpp.
--
-- Bounds: printing a number n takes n + 1 rounds of fuel, more than it has digits. The device mask
-- has 64 bits; the theorems on the choice of devices assume at most 64 devices, since C++ leaves
-- larger shifts undefined. All other loops are structural. The int subtractions of the touch
-- transform are exact where C++ leaves their overflow undefined, and the arithmetic of double is a
-- parameter, of which Recorder/Touch/Ieee states laws of IEEE 754 for single operations: an int is
-- exact, a quotient and a product are within 2^-53 of the exact value, and the conversion to int
-- truncates. Recorder/Touch/Bounds assumes these. Times are milliseconds since the epoch, not
-- negative. The clock and the time stamp in a file's name are arguments.
--
-- Not modelled: logging and the usage texts; the signal handler; client/client_test.cpp; the parts
-- under ENABLE_LIBINPUT; the libraries under third_party; tests, scripts and recipes.
pub mod Prelude
pub mod Linux
pub mod Syscalls
pub mod Xkb
pub mod Recorder
pub mod Server
pub mod Client
pub mod Screenshot
pub mod Health
pub mod Programs
pub mod Tests
