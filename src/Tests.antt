-- ===== src/Tests.antt =====
-- Runs of the model on small inputs, in which each theorem's conditions hold.
mod Data
mod Draining
mod Answering
mod Sessions
mod UnitTests
mod Following
mod Handling
mod Launching
mod Locking
mod Programs
mod Reordering
mod Requesting
mod Routing
mod Serving
mod Accepting
mod Running
