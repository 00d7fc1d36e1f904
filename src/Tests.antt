-- ===== src/Tests.antt =====
-- Runs of the development at concrete inputs, on a kernel whose maps are functions.
mod Machine
mod Codec
mod Dataplane
mod Expiry
mod Policy
mod Reverse
mod Forward
mod Host
mod Lifecycle
mod Consistent
mod RoundTrip
mod Summing
mod Update
mod Messages
