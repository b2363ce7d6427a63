-- ===== src/Fsx/Protocol/Together.antt =====
-- The two sides of internal/fsx/mutation_protocol.go: what one sends, the other accepts.
use personal_mcp_gateway.Base.{ℕ, bytes_eq_iff, true, some, ◌≡◌, ◌⊎◌, ap, refl, arith}
use personal_mcp_gateway.Fsx.Protocol.Types.{Operation, Phase, Control, Side, Protocol}
use personal_mcp_gateway.Fsx.Protocol.Fields.{operation_eq, valid_operation, valid_fd_roles}
use personal_mcp_gateway.Fsx.Protocol.Side.{
  can_send, can_receive, validate_bound, validate_outgoing, validate_incoming, advance, new_parent,
  new_helper,
}

-- Both sides agree on the phase and, once the request has passed, on what it fixed.
pub record InStep (p h : Protocol) : Type 0 where
  pub is_parent : p.side ≡ Side.parent
  pub is_helper : h.side ≡ Side.helper
  pub phases : p.phase ≡ h.phase
  pub operation_known : valid_operation p.operation ≡ true
  pub roles_known : valid_fd_roles p.operation p.roles ≡ true
  pub joined :
      (p.phase ≡ Phase.unset)
      ⊎ ((p.operation ≡ h.operation) × (p.roles ≡ h.roles) × (p.payload ≡ h.payload))

operation_eq_lem : (a b : Operation) → operation_eq a b ≡ true → a ≡ b
unfolding operation_eq
operation_eq_lem Operation.create Operation.create h = refl
operation_eq_lem Operation.replace Operation.replace h = refl
operation_eq_lem Operation.unset Operation.unset h = refl
operation_eq_lem (Operation.other a) (Operation.other b) h =
    ap Operation.other ((bytes_eq_iff a b).0 h)
operation_eq_lem _ _ h = cc

operation_eq_refl : (a : Operation) → operation_eq a a ≡ true
unfolding operation_eq
operation_eq_refl (Operation.other a) = (bytes_eq_iff a a).1 refl
operation_eq_refl _ = refl

-- A side that is opened by the constructor and one that is new are in step.
pub new-InStep :
    (operation : Operation) (roles : ℕ) (p : Protocol)
    → new_parent operation roles ≡ some p
    → InStep p new_helper
unfolding new_parent new_helper
new-InStep operation roles p h = ground arith

module _ (p h : Protocol) (c : Control) where
  -- What the parent may send, the helper accepts.
  pub parent_to_helper :
      InStep p h
      → can_send p c.phase ≡ true
      → validate_outgoing p c ≡ true
      → (can_receive h c.phase ≡ true)
        × ((validate_incoming h c).1 ≡ true)
        × InStep (advance p c) (advance (validate_incoming h c).0 c)
  unfolding can_send can_receive validate_outgoing validate_incoming validate_bound advance
  parent_to_helper s may ok =
      ground (arith, operation_eq_lem c.operation p.operation, operation_eq_refl c.operation)

  pub helper_to_parent :
      InStep p h
      → can_send h c.phase ≡ true
      → validate_outgoing h c ≡ true
      → (can_receive p c.phase ≡ true)
        × ((validate_incoming p c).1 ≡ true)
        × InStep (advance (validate_incoming p c).0 c) (advance h c)
  unfolding can_send can_receive validate_outgoing validate_incoming validate_bound advance
  helper_to_parent s may ok =
      ground (arith, operation_eq_lem c.operation h.operation, operation_eq_refl c.operation)
