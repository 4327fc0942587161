-- ===== src/Tests.antt =====
-- Tests on concrete inputs, and each theorem with hypotheses at an input that meets them.
mod Ready
mod Completions
mod Rings
mod Objects
mod Held
mod Listeners
mod Demo
mod Futures
mod Systems
mod Custody
mod Settled
mod Files
mod Small
mod Streams
mod Accepting
mod Threads
mod Writes
mod Reads
