-- ===== src/Tests.antt =====
-- Runs of the definitions at fixed inputs, and instances of the theorems where their hypotheses hold.
mod Data
mod Strings
mod Pages
mod Calls
mod Open
mod Schedules
mod Pipes
mod Logs
mod Processes
mod Containers
mod Users
mod Consoles
mod Blocks
mod Descriptors
mod Locks
mod Buffers
mod Spaces
mod Shells
