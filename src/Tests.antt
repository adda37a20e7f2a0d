-- ===== src/Tests.antt =====
-- Runs of the model, and the theorems at concrete inputs.
mod Setup
mod Waiting
mod Deadlines
mod Streams
mod Headers
mod Threads
mod Logs
mod Systems
mod Traces
mod Variance
mod Telemetry
mod Errors
mod Contexts
mod Calls
