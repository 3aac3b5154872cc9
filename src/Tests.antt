-- ===== src/Tests.antt =====
-- Runs on concrete inputs, with stand-ins for the libraries that the program calls.
mod Codecs
mod Writer
mod Lines
mod Traffic
mod CaptureRun
mod Analysis
mod Hello
mod FlowRun
mod Rollups
mod Interleaving
mod Network
mod Control
mod Rendering
mod Serving
mod Daemon
