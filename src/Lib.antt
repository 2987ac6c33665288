-- ===== src/Lib.antt =====
-- Verification of linblock, an Android emulator in Python that runs Android in QEMU behind a GTK
-- interface.
--
-- The program has three layers with a model here. The emulation layer (src/modules/emulation) owns
-- the virtual machine: an emulator core drives a QEMU process, through which the guest runs, and
-- the GPU command pipe takes the guest's graphics commands from a socket of that process and sends
-- the renderer's responses back; small managers keep the devices, disk images, forwarding rules and
-- input events. The Android layer (src/modules/android) keeps what is known of the guest's
-- applications, their permissions and processes. The infrastructure layer
-- (src/modules/infrastructure) has the configuration and the event bus. The layers call each other
-- through objects that each keep a few dicts, and report errors by exceptions.
--
-- Prelude passes on the libraries' names, and has Boolean tests, lists over native numbers,
-- equality by instances, and methods: functions from an object's state to a result, or an
-- exception as a value, and the new state. What an operation wrote before it raised stays written.
-- Dict is Python's dict, in insertion order. Bytes has the packing of numbers in bytes. Socket is a
-- stream socket as the list of what will arrive: pieces, stalls that the timeout ends, and failures.
-- Socket.Fill is the loop that receives a given number of bytes; it takes as many rounds as bytes
-- are missing, which is enough since every round adds one.
--
-- Emulation.GpuPipe models src/modules/emulation/emulator_core/internal/gpu_pipe.py: Transport the
-- two transports, Pipe the pipe and a round of its thread, Loop the thread over the number of rounds
-- that it makes before another thread stops it. Framing and Loop have the proofs.
-- Emulation.Qemu models internal/qemu_process.py beside it: Config the configuration, Command the
-- command line by the blocks of `_build_command`, Ports the search for a free port (a hundred
-- attempts, as in the code), Process the process object over a record of what the host answers.
-- Changes there has the states that each call is meant to enter, by which the callbacks are described.
-- Emulation.QemuCore and Emulation.EmulatorCore model the two classes of
-- src/modules/emulation/emulator_core/interface.py; the first is composed of the model of the QEMU
-- process, whose state changes it takes over through a callback.
-- Emulation.VncClient models internal/vnc_client.py there: the handshake and the messages, and in
-- Receive the receiver thread over the number of rounds that it makes before it is stopped.
-- Emulation.GpuRenderer models src/modules/emulation/gpu_renderer. The renderer runs in a process of its own,
-- the worker, that the emulator starts and speaks to over a socket; frames go through shared memory.
-- Header, Region and ShmDisplay model internal/shm_display.py over a store of regions that keep their
-- contents when they lose their name; Message the messages of both sides; Picture the gradient that is drawn where there is no native library;
-- Worker internal/renderer_worker.py, with the handlers in Handlers and the loop of `run` in Loop, where
-- one round more than there are bytes, stalls and failures to come is enough fuel; Launcher and Process internal/renderer_process.py;
-- Renderer, Stub and Native the two renderers of interface.py; FrameSource gtk_integration.py, with the main loop of GTK
-- as the calls of its poll. Link has the process and the worker
-- together.
-- Emulation.DeviceManager, StorageManager, InputManager, NetworkManager and DisplayManager, and
-- Android.AppManager, PermissionManager and ProcessManager, model the class with `Default` before
-- that name in interface.py of the module of that name; Android.AppStateStore models
-- src/modules/android/app_manager/internal/app_state_store.py. Infrastructure.ConfigManager and
-- EventBus model interface.py of config_manager and event_bus.
-- ConfigManager.Sorted has what the YAML library, as it is called, makes of a mapping: it sorts the keys.
-- Profile models src/config/os_profile.py: a dataclass is its fields with their defaults, and an instance the list of
-- their values, which Python does not check. Profile.Manager models src/utils/profile_manager.py.
-- LoadOsPage models the boot configuration of src/pages/load_os_page.py, over the texts of its entries.
-- Android.ImageManager models interface.py of android_image, and Emulation.GpuRenderer.Sandbox
-- internal/sandbox.py of gpu_renderer.
-- An operation keeps its name, without a leading underscore, and `__init__` is `init` or a name with
-- `new`; `package` is written `pkg`. A record type holds the attributes of its class.
--
-- Where clients call an object in any order, the calls are an Event type, `handle` makes one call,
-- and `run` makes a list of them on a new object.
--
-- Arguments of the definitions, since they are not code of the program: the clock and new
-- identifiers, the YAML library and the files, which programs, files and ports the host has, how a
-- child process fares, whether a send goes through, the scaling of a display by a float, the
-- paths that exist and how paths are joined, and the stripping of a text and the test of its ending. Two threads are seen as calls and rounds that
-- follow one another; a race inside a call is not modelled.
-- Not modelled: the GTK interface (gui, pages, ui) but for that boot configuration, which is glue to a library; the signals and
-- the native library of the renderer's worker; logging; the KVM and memory internals, which are calls of the operating
-- system or stubs; the abstract interface classes; the mocks, tests and scripts.
pub mod Prelude
pub mod Bytes
pub mod Socket
pub mod Dict
pub mod Android
pub mod Infrastructure
pub mod Emulation
pub mod Profile
pub mod LoadOsPage
pub mod Tests
