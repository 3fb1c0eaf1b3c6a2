-- ===== src/Tests.antt =====
-- Runs of the model on small inputs, and the theorems at inputs that meet their hypotheses.
mod Platform
mod Discord
mod Middleware
mod Distributed
mod Forwarding
mod Merging
mod Endpoints
mod Dispatch
mod Repeats
mod Returning
mod Chat
mod Sockets
