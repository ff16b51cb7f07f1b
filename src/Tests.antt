-- ===== src/Tests.antt =====
-- The theorems applied at concrete inputs, and runs of the models.
mod Parse
mod Response
mod Header
mod Script
mod Body
mod Proxy
mod Eof
mod Writer
mod Builder
mod Sink
mod Chunked
mod Heads
mod HttpParse
mod Connections
