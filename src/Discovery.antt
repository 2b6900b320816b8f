-- ===== src/Discovery.antt =====
-- net/service_discovery: the service centre, which maps the full name of an RPC method to an address,
-- and the two clients that talk to it. The sockets are parameters: what recv or read returned is an
-- argument, and what is written is a result.
pub mod Center
pub mod Client
pub mod Main
pub mod RoundTrip
mod Runs
