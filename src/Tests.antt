-- ===== src/Tests.antt =====
-- Runs of the model on concrete inputs, and the theorems at inputs that meet their hypotheses.
mod Channels
mod Charset
mod Checksum
mod Klist
mod Led
mod Log
mod Speech
mod Startup
mod Server
mod Folders
mod Framer
mod Machine
mod Config
mod Lane
