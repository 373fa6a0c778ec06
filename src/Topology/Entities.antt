-- ===== src/Topology/Entities.antt =====
-- topology/entities.hpp and id.hpp: the identities that events and transfers name. A strong ID is
-- the number that it wraps.
use nexus_lab.Prelude.{ℕ, Bool, true, false}

pub data NodeKind : Type 0 where
  gpu nic switch : NodeKind

pub data LinkKind : Type 0 where
  local_attachment fabric : LinkKind

-- `invalid` is any value of the enum that no enumerator names, as `OperationalState{}`.
pub data OperationalState : Type 0 where
  up down invalid : OperationalState

pub data LinkDirection : Type 0 where
  a_to_b b_to_a : LinkDirection

pub record DirectedLinkId : Type 0 where
  pub link : ℕ
  pub direction : LinkDirection

pub record PhysicalLink : Type 0 where
  pub id : ℕ
  pub endpoint_a : ℕ
  pub endpoint_b : ℕ
  pub kind : LinkKind
  pub state : OperationalState

pub record DirectedLink : Type 0 where
  pub id : DirectedLinkId
  pub source : ℕ
  pub destination : ℕ

abbrev pub direction_eq : LinkDirection → LinkDirection → Bool
direction_eq a_to_b a_to_b = true
direction_eq b_to_a b_to_a = true
direction_eq _ _ = false
