-- ===== src/Tests.antt =====
-- Runs of the code at concrete inputs, and the theorems at concrete inputs.
mod Addr
mod Proposal
mod Policy
mod Sa
mod Toy
mod Msg
mod Payload
mod Fragment
mod Notify
mod Queue
mod Recv
mod Parse
