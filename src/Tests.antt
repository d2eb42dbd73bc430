-- ===== src/Tests.antt =====
-- Concrete runs of the program, and the theorems at concrete inputs.
mod Answers
mod Commands
mod Device
mod Ftp
mod Kept
mod MainLoop
mod Outer
mod Parts
mod Records
mod Serve
mod Sessions
mod Settings
mod Storage
mod Tasks
mod Wifi
