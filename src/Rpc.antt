-- ===== src/Rpc.antt =====
-- net/rpc: the parts that a call of an RPC method goes through.
pub mod Controller
pub mod Closure
pub mod Dispatcher
pub mod Answer
pub mod Replies
pub mod MsgId
pub mod Channel
