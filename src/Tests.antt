-- ===== src/Tests.antt =====
-- Runs of the model on small inputs, and each theorem at an input that meets its hypotheses.
mod Packets
mod Tries
mod Wheels
mod Logs
mod Loops
mod Proxies
mod Servers
mod Timeouts
mod Streams
mod Listening
mod Bindings
mod Programs
mod Names
mod Promises
mod Reads
mod Relays
mod Clients
mod Datagrams
mod Posts
