-- ===== src/Examples.antt =====
-- Runs of the models on concrete inputs, and the theorems applied to them.
mod Headers
mod Names
mod Streams
mod Texts
mod Frames
mod Captures
mod Filters
mod Sockets
mod Server
