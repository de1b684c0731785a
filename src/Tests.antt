-- ===== src/Tests.antt =====
-- The examples: each theorem of the development at a concrete input.
mod Wire
mod Queues
mod Clients
mod Sessions
mod Parameters
mod Programs
mod Systems
mod Requests
mod Servers
mod Threads
