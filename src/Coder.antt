-- ===== src/Coder.antt =====
-- net/coder: the messages of the protocol, their byte format, and the coder between the two.
pub mod Protocol
pub mod Net
pub mod Encode
pub mod Decode
pub mod Wire
pub mod Parse
pub mod Scan
pub mod RoundTrip
pub mod StringCoder
pub mod Hostile
mod Runs
