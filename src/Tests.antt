-- ===== src/Tests.antt =====
-- The theorems applied to concrete messages, addresses and errors, and runs of the codecs.
mod Codecs
mod Connecting
mod Handling
mod Serving
mod Asserts
mod Starting
mod Timing
mod Unit
