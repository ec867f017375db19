-- ===== src/Subscriber.antt =====
-- pkg/subscriber: the state machine of one simulated subscriber, and its retransmit policy.
pub mod Policy
pub mod Fsm
pub mod Pool
pub mod Examples
pub mod PoolExamples
