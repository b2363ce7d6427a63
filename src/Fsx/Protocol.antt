-- ===== src/Fsx/Protocol.antt =====
-- internal/fsx/mutation_protocol.go: one side of the conversation between the gateway and its mutation
-- helper. The children have the framing and the two sides together.
pub mod Types
pub mod Fields
pub mod Leaves
pub mod Side
pub mod Wire
pub mod Together
pub mod Delivery
pub mod Passed
pub mod Conversation
