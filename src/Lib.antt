-- ===== src/Lib.antt =====
-- OmaLens shows the camera of a phone as a video device of a Linux desktop. Its core library,
-- crates/omacam-core, holds what the processes agree on: who may connect, when capture is allowed,
-- and how media travels. The daemon, crates/omacam-daemon, talks to the phone and to the desktop and
-- hands the pictures over to the output process, crates/omacam-output, which owns the virtual camera.
--
-- Parts and files:
-- - Policy (crates/omacam-core/src/lib.rs): `SessionPolicy`, its state as a record and each method
--   as a function that returns the new state, beside its result where it has one. `step` is one call
--   of the interface and `run` a history of them. Policy/Invariant, Consent, Generation and Expiry
--   hold the proofs.
-- - Media (crates/omacam-core/src/media.rs): Wire has the constants and the binding of a stream to a
--   peer, a connection and a session; Stream has the records, `MediaStreamValidator` and
--   `write_record`; Stream/Reading has `read_next` over a reader; Output has the commands of the
--   output process and Hex the identifiers as text. Fields and Stream/Layout say where the fields
--   of a header stand.
-- - Control (crates/omacam-core/src/control.rs): `ControlSession`, the challenge that a paired phone
--   answers when it reconnects.
-- - Pairing (crates/omacam-core/src/pairing.rs): Invitation is what the QR code shows, Session what
--   the desktop keeps of it until the phone is trusted.
-- - Browser (crates/omacam-core/src/browser.rs): the same for a phone without the app, whose browser
--   opens the invitation's URL.
-- - Camera (crates/omacam-core/src/camera.rs): the capabilities that a phone reports, the controls
--   that the desktop requests and the state that the phone applied, over a type that stands for f64
--   with the operations that the code calls. Bounds writes the bounds of sizes, rates and ranges out;
--   Capabilities and Requests say by them which reports and which requests are valid.
-- - Endpoint: the socket addresses of both invitations. Transcript: the fields that are signed or
--   hashed, each behind its length. Platform: base64, SHA-256, ECDSA, Unicode and the printing of
--   addresses, which the core takes from crates; they are the fields of a record that the
--   definitions take as an argument, and `IsPlatform` names the two laws that proofs rest on.
-- - Output (crates/omacam-output/src): Config is config.rs, Mux is mux.rs with the queue of decoded
--   frames and the thread that writes one frame for each tick, Input is what service.rs reads from
--   the daemon's pipe, Service and Service/Loop are the service with its decoder and its generation,
--   Forward is the loop of the framed mode and Cli the command line of cli.rs. Mux/Display is an
--   output without a queue, which the mux is compared with.
-- - Worker (crates/omacam-daemon/src/capture/output_worker.rs): the daemon's end of that pipe.
--   Worker/Agreement puts both ends together.
-- - Runtime (crates/omacam-daemon/src/service_runtime.rs): the state that the daemon's tasks share.
--   Locked has what a task does while it holds the lock, Requests the requests as chains of such
--   parts, Steps the histories of parts in any order.
-- - Provider (crates/omacam-daemon/src/browser/session.rs): the camera session of the browser
--   provider; Session has its operations, Heartbeat `accept_heartbeat`, Access the limits of polling,
--   History the histories of calls. The guard in front of the activation is of browser/http.rs,
--   and what a preview picture does to the session is of browser/preview.rs.
-- - Prelude: shared names, results, byte strings and big-endian integers. Tests: the theorems at
--   concrete inputs.
--
-- The pairing, control and browser sessions share the transcripts and the platform. The generation
-- that the policy opens goes into the binding of a stream; the daemon's worker names this binding in
-- its commands, the service accepts media of no other, and the mux shows neutral frames unless a
-- decoder of the generation yields frames. The runtime publishes the policy's state and takes the
-- requests of the desktop. The provider checks commands and heartbeats by the validators of Camera.
--
-- Conventions: a number is a natural number; where the source adds in u64 the wrap, the saturation
-- or the failure is written out, and `saturating_sub` is the subtraction of the natural numbers. A
-- string is the list of its bytes. A Rust array is a list, with its length in a hypothesis where a
-- proof needs it. Time and randomness are arguments. An I/O reader is the list of what its reads
-- yield: a byte, an interruption, another failure; reading is by recursion on that list and on the
-- number of bytes wanted, so no fuel is needed. `records` repeats `read_next` a given number of
-- times, and its theorem holds of every number. `forward_media` runs on fuel; each turn that goes on
-- has read a byte, so more fuel than the reader has events is enough. What other processes and
-- threads answer is an argument of each call (`Answers` of Output/Service, `Meets` of Worker), and
-- what they do meanwhile is a list of events or locked parts. A command that the mux does not take in
-- two seconds is taken by it never; the service returns then. `usize` has 64 bits. Where the source
-- tells errors, statuses and intents apart by strings, they are constructors.
--
-- Not modelled: the I/O errors of the two writers of the core, which are given a writer that takes
-- all bytes; serde's JSON, a pair of functions with the round trip as a hypothesis, or a test of
-- equality that is given; Debug and Display texts; constant-time comparison of the control proof,
-- which has the result of an ordinary one; the bearer token of the provider; processes, sockets,
-- GStreamer, WebRTC and HTTP of the daemon and of the output process, with its probing and its
-- writer mode; the daemon's capture loop and control server; the preview window, the Android app and
-- the web pages.
pub mod Prelude
pub mod Endpoint
pub mod Platform
pub mod Transcript
pub mod Policy
pub mod Media
pub mod Control
pub mod Pairing
pub mod Browser
pub mod Camera
pub mod Output
pub mod Worker
pub mod Runtime
pub mod Provider
pub mod Tests
