-- ===== src/Tests.antt =====
-- Concrete machines, a short program, and the theorems at concrete inputs.
mod Machine
mod Storage
mod Debugger
mod Sessions
mod Names
mod Transfers
mod Debugging
mod Execution
mod Arithmetic
mod Options
