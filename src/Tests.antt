-- ===== src/Tests.antt =====
-- Runs of the models on concrete inputs, and instances of the theorems at inputs that meet their
-- hypotheses.
mod Toy
mod Network
mod Gateway
mod Storage
mod Mix
mod Client
mod Handlers
mod Sending
mod Envelope
