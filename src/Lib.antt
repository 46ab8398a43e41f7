-- ===== src/Lib.antt =====
-- Penflow streams a Windows desktop to an Android pen tablet. The server captures and encodes the
-- desktop, rewrites the parameter sets of the coded video so that the client's decoder buffers as
-- little as possible, queues the packets, and sends them over a framed connection on which the client's
-- pen and touch samples come back.
--
-- What is modelled, by file:
-- - Engine: `EngineError` and `EngineResult` of crates/penflow-core/src/error.rs.
-- - Sps: crates/penflow-core/src/encoder/sps_patcher.rs. Sps/Reader and Sps/Writer are `BitReader` and
--   `BitWriter`, refined to lists of bits (Sps/Bits) in Reader/View, Reader/Golomb, Writer/Packed and
--   Writer/Golomb. Sps/Walker has the two mutable borrows that a rewriter passes around as a state, and
--   `?` as its error; `let v = r.read_bits(n)?; w.write_bits(v, n);` is `copy_bits n`. Walker/Runs and
--   Walker/Replays say what a walker makes of known bits and of another walker's output. Sps/Vui,
--   Sps/H264 and Sps/Hevc (with Hevc/Head and Hevc/Tail) are the rewriters, split at the borders of the
--   syntax elements; Sps/Emulation is `rbsp_escape` and `rbsp_unescape`; Sps/Packet is
--   `patch_packet_for_low_latency_dpb` and `scan_start_code`.
-- - Queue: crates/penflow-core/src/packet_queue.rs. Each operation holds the mutex, so a run of several
--   threads is a list of operations; a consumer that waits makes several passes through its loop.
-- - Protocol: crates/penflow-protocol/src/lib.rs, a file for each message, Framing for `encode_frame`,
--   `write_frame` and `read_frame`, and Nals for `split_nals` and the extraction of parameter sets.
--   Bytes are numbers; signed integers and floats are their bit patterns.
-- - Inject: crates/penflow-core/src/inject. Binding is binding.rs, Vmulti is vmulti.rs, and the rest is
--   mod.rs and win_ink.rs: Injector has the samples and `InputInjector`, Os the calls that it makes of
--   the system, Buttons `dispatch_pen_buttons` and `set_pen_profile`, Flags `pen_pointer_flags`, Pen
--   `inject_pen`, Touch `inject_touch`, Mouse `send_mouse_move_to`, and Pressure the arithmetic of f32
--   that scales a pressure. The system is a parameter that takes or refuses each call, and the calls
--   taken are kept as a log, the newest first. Balance counts presses and releases in it; Pen/Following
--   and Touch/Contacts have a receiver that follows the pen and the fingers by the flags.
-- - Session: crates/penflow-server/src/session.rs. Greeting is the handshake of `run` and of
--   `run_screen_off`, Sample what the client's events become, Reading `read_loop`, Frames `frame_pump`,
--   Waiting `wait_for_keyframe`, Telemetry `telemetry_pump`, and Stats `Stats`. The two maps of the
--   coordinates, the clock and the connection are parameters.
-- - Transport: crates/penflow-transport/src/adb.rs, as the events of the tasks that share it.
-- - Vdd: crates/penflow-server/src/vdd.rs. Host is the system under one device: devcon, and the status
--   of the device by the runs of devcon; Helper is `helper_main` and `resident_helper_main`; Controller
--   is `VddController` with `ResidentHelper`; Detect is `VddController::detect`, and Preferred what it is to
--   choose.
-- - Cursor: crates/penflow-core/src/capture/cursor_shape.rs.
-- - Desktop: apps/penflow-gui/src-tauri/src, service.rs and settings.rs: Bindings is `convert_binding`,
--   Keys `parse_key_combo` and `parse_key_token`, and Text what they use of `str`.
-- - Encoder: `MfSession` of crates/penflow-core/src/encoder/mf.rs, with `first_nal_is_idr` in Keyframe. Credits has how often it may feed
--   the transform, Order in which order the time stamps come out, Returns when a submission returns.
-- - Pipeline: crates/penflow-core/src/pipeline.rs. `tick`, `run` and what other threads do to the
--   shared flags and the queue, as a list of events; Pipeline/Runs has what a run owes the encoder.
--
-- The packet rewriter calls the unescaping, a rewriter and the escaping for each parameter set. The
-- encoder's loop hands its output to the queue, and the server sends what it takes out as the coded
-- bytes of a `VideoFrame` in a frame. A session reads the client's frames, makes samples of the pen and
-- touch events, and gives them to the injector; it switches the virtual display on before and off
-- after.
--
-- Machine integers keep their wrap-around where it can be met: `% 2 ^ 32` for a u32, the saturating
-- counter of the queue. Offsets and lengths, the usize of the source, do not wrap. Fuel: `read_zeros`
-- has 32 rounds, since the source gives up at the 32nd zero; `pad_to_byte` has seven;
-- `copy_remaining_loop` has a round for each bit that is left, and takes one at least in each;
-- `patch_nals` and `find_starts` have a round for each byte of the packet, and take one at least in
-- each, as has `scan_for_idr`; `read_loop` has a round for each byte of the stream and one more;
-- `poll_disabled` has a round for each attempt until the deadline.
--
-- Concurrency: the injector and the writer are each behind a mutex, so that a session is a sequence of
-- messages handled one after the other; the pumps beside it are sequences of their own, and the
-- transport is the events of all tasks that use it. The end of the runtime's tasks is not modelled. An
-- elevated helper runs within the call of its parent that waits for it, also one that the parent gives
-- up waiting for.
--
-- The pipeline's encoder is an argument of its loop; Encoder is the session behind it, on its own, with
-- the answers of the transform as its argument.
--
-- Not modelled: the coordinate transform of f32, the calls of Windows, of graphics and encoders, of
-- sockets, processes and files, the user interface, the service's accept loop, the Android client; the
-- waking of threads by the condition variable. A tick of the encoder's loop is one step: a consumer's
-- pop does not come between two packets of it.
pub mod Base
pub mod Engine
pub mod Sps
pub mod Queue
pub mod Protocol
pub mod Desktop
pub mod Encoder
pub mod Pipeline
pub mod Inject
pub mod Session
pub mod Transport
pub mod Vdd
pub mod Cursor
