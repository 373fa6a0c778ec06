-- ===== src/Topology/Resources.antt =====
-- topology/entities.hpp and id.hpp: the machines, switches and ports of a cluster, and the sequence
-- of their IDs.
use nexus_lab.Prelude.{
  ℕ, ◌+◌, ◌≤◌, ◌≡◌, ◌⊎◌, Bool, true, Option, List, arith, ◌==◌, if◌then◌else◌, u64_max, u64_mod,
}
use nexus_lab.Prelude.Except.{overflow_error, ok, err}
use nexus_lab.Prelude.State.{M}
use nexus_lab.Topology.Entities.{NodeKind, OperationalState, gpu, nic, switch}

pub data SwitchRole : Type 0 where
  leaf spine : SwitchRole

pub data PortRole : Type 0 where
  local fabric_downlink fabric_uplink : PortRole

pub record NodeId : Type 0 where
  pub kind : NodeKind
  pub value : ℕ

-- The constructors of a node's identity.
abbrev pub gpu_node : ℕ → NodeId
gpu_node id = record { kind = gpu; value = id }

abbrev pub nic_node : ℕ → NodeId
nic_node id = record { kind = nic; value = id }

abbrev pub switch_node : ℕ → NodeId
switch_node id = record { kind = switch; value = id }

pub record GpuWorker : Type 0 where
  pub id : ℕ
  pub rack : ℕ
  pub attached_nic : ℕ
  pub port : ℕ

pub record Nic : Type 0 where
  pub id : ℕ
  pub rack : ℕ
  pub attached_gpus : List ℕ
  pub ports : List ℕ

pub record Switch : Type 0 where
  pub id : ℕ
  pub rack : Option ℕ
  pub role : SwitchRole
  pub ports : List ℕ
  pub state : OperationalState

pub record Rack : Type 0 where
  pub id : ℕ
  pub gpus : List ℕ
  pub nics : List ℕ
  pub leaf_switches : List ℕ

pub record Port : Type 0 where
  pub id : ℕ
  pub owner : NodeId
  pub role : PortRole
  pub state : OperationalState

pub record SequentialIdGenerator : Type 0 where
  pub next_value : ℕ
  pub exhausted : Bool

unfoldable pub next_id : M SequentialIdGenerator ℕ
next_id g = if g.exhausted then (err (overflow_error "topology ID sequence exhausted"), g) else (
  ok g.next_value,
  if g.next_value == u64_max
      then record g { exhausted = true }
      else record g { next_value = g.next_value + 1 },
)

-- The IDs below this one are given out.
abbrev pub given_out : SequentialIdGenerator → ℕ
given_out g = if g.exhausted then u64_mod else g.next_value

-- What a call of `next` does.
abbrev pub GivesId : SequentialIdGenerator → Type 0
GivesId g =
    (((next_id g).0 ≡ ok (given_out g))
      × (given_out g ≤ u64_max)
      × (given_out (next_id g).1 ≡ given_out g + 1)
      × ((next_id g).1.next_value ≤ u64_max))
    ⊎ ((given_out g ≡ u64_mod)
        × (next_id g ≡ (err (overflow_error "topology ID sequence exhausted"), g)))

-- Of a generator whose number is of 64 bits, `next` gives the first topology ID that is not given
-- out and gives it out, or, when all 64-bit IDs are, throws and changes nothing.
next_id_cases : (g : SequentialIdGenerator) → g.next_value ≤ u64_max → GivesId g
unfolding next_id
next_id_cases g w = ground arith
