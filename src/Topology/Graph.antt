-- ===== src/Topology/Graph.antt =====
-- topology/graph.hpp and graph.cpp, and directed_links of entities.cpp: the graph of a cluster, how it
-- is built, and which of its parts are up. A vector is a list, and an entity's ID is its index.
use nexus_lab.Prelude.{
  ℕ, zero, suc, Bool, true, false, not, ◌&&◌, ◌||◌, Option, none, some, List, [], ◌∷◌, ◌++◌,
  get_elem?, ◌==◌, if◌then◌else◌, has_value,
}
use nexus_lab.Prelude.State.{M, ◌>>=◌, ◌>>◌, pure, throw, modify}
use nexus_lab.Prelude.Except.{invalid_argument, logic_error, other, Result, ok, err}
use nexus_lab.Topology.Entities.{
  NodeKind, gpu, nic, switch, LinkKind, local_attachment, fabric, OperationalState, up, down,
  invalid, LinkDirection, a_to_b, b_to_a, DirectedLinkId, PhysicalLink, DirectedLink, direction_eq,
}
use nexus_lab.Topology.Resources.{
  SwitchRole, leaf, spine, PortRole, local, NodeId, gpu_node, nic_node, GpuWorker, Nic, Switch,
  Rack, Port, SequentialIdGenerator, next_id,
}

pub record TopologyGraph : Type 0 where
  pub gpu_ids : SequentialIdGenerator
  pub nic_ids : SequentialIdGenerator
  pub switch_ids : SequentialIdGenerator
  pub rack_ids : SequentialIdGenerator
  pub port_ids : SequentialIdGenerator
  pub link_ids : SequentialIdGenerator
  pub operational_revision : ℕ
  pub gpus : List GpuWorker
  pub nics : List Nic
  pub switches : List Switch
  pub racks : List Rack
  pub ports : List Port
  pub links : List PhysicalLink
  pub gpu_adjacency : List (List DirectedLink)
  pub nic_adjacency : List (List DirectedLink)
  pub switch_adjacency : List (List DirectedLink)

abbrev pub fresh_ids : SequentialIdGenerator
fresh_ids = record { next_value = 0; exhausted = false }

-- `TopologyGraph{}`
abbrev pub empty_graph : TopologyGraph
empty_graph = record {
  gpu_ids = fresh_ids;
  nic_ids = fresh_ids;
  switch_ids = fresh_ids;
  rack_ids = fresh_ids;
  port_ids = fresh_ids;
  link_ids = fresh_ids;
  operational_revision = 0;
  gpus = [];
  nics = [];
  switches = [];
  racks = [];
  ports = [];
  links = [];
  gpu_adjacency = [];
  nic_adjacency = [];
  switch_adjacency = [];
}

-- The two arcs of a link.
abbrev pub arc_a_to_b : PhysicalLink → DirectedLink
arc_a_to_b l = record {
  id = record { link = l.id; direction = a_to_b };
  source = l.endpoint_a;
  destination = l.endpoint_b;
}

abbrev pub arc_b_to_a : PhysicalLink → DirectedLink
arc_b_to_a l = record {
  id = record { link = l.id; direction = b_to_a };
  source = l.endpoint_b;
  destination = l.endpoint_a;
}

-- The arc of `directed_links(link)` in a direction.
abbrev pub directed_link : PhysicalLink → LinkDirection → DirectedLink
directed_link l a_to_b = arc_a_to_b l
directed_link l b_to_a = arc_b_to_a l

abbrev pub link_id_eq : DirectedLinkId → DirectedLinkId → Bool
link_id_eq a b = a.link == b.link && direction_eq a.direction b.direction

abbrev pub directed_link_eq : DirectedLink → DirectedLink → Bool
directed_link_eq a b =
    link_id_eq a.id b.id && a.source == b.source && a.destination == b.destination

abbrev pub kind_eq : NodeKind → NodeKind → Bool
kind_eq gpu gpu = true
kind_eq nic nic = true
kind_eq switch switch = true
kind_eq _ _ = false

abbrev pub node_eq : NodeId → NodeId → Bool
node_eq a b = kind_eq a.kind b.kind && a.value == b.value

abbrev pub is_up : OperationalState → Bool
is_up up = true
is_up down = false
is_up invalid = false

-- The states that the enumerators name.
abbrev pub is_valid : OperationalState → Bool
is_valid up = true
is_valid down = true
is_valid invalid = false

abbrev pub state_eq : OperationalState → OperationalState → Bool
state_eq up up = true
state_eq down down = true
state_eq invalid invalid = true
state_eq _ _ = false

module _ {A : Type 0} (id_of : A → ℕ) where
  abbrev pub dense_at : ℕ → Option A → Option A
  dense_at id none = none
  dense_at id (some e) = if id_of e == id then some e else none

  -- `find_dense`
  unfoldable pub find_dense : List A → ℕ → Option A
  find_dense entities id = dense_at id (get_elem? entities id)

-- A write to the element of an index.
unfoldable pub modify_at : {A : Type 0} → (A → A) → List A → ℕ → List A
modify_at f [] i = []
modify_at f (x ∷ xs) zero = f x ∷ xs
modify_at f (x ∷ xs) (suc i) = x ∷ modify_at f xs i

abbrev pub find_gpu_worker : TopologyGraph → ℕ → Option GpuWorker
find_gpu_worker g id = find_dense (λ (e : GpuWorker). e.id) g.gpus id

abbrev pub find_nic : TopologyGraph → ℕ → Option Nic
find_nic g id = find_dense (λ (e : Nic). e.id) g.nics id

abbrev pub find_switch : TopologyGraph → ℕ → Option Switch
find_switch g id = find_dense (λ (e : Switch). e.id) g.switches id

abbrev pub find_rack_entity : TopologyGraph → ℕ → Option Rack
find_rack_entity g id = find_dense (λ (e : Rack). e.id) g.racks id

abbrev pub find_port : TopologyGraph → ℕ → Option Port
find_port g id = find_dense (λ (e : Port). e.id) g.ports id

abbrev pub find_link : TopologyGraph → ℕ → Option PhysicalLink
find_link g id = find_dense (λ (e : PhysicalLink). e.id) g.links id

abbrev pub contains_at : NodeKind → ℕ → TopologyGraph → Bool
contains_at gpu value g = has_value (find_gpu_worker g value)
contains_at nic value g = has_value (find_nic g value)
contains_at switch value g = has_value (find_switch g value)

-- `contains`
unfoldable pub contains_node : NodeId → TopologyGraph → Bool
contains_node node g = contains_at node.kind node.value g

-- The IDs that the generators of a graph give.
abbrev pub next_gpu_id : M TopologyGraph ℕ
next_gpu_id g = let (answer, ids) = next_id g.gpu_ids in (answer, record g { gpu_ids = ids })

abbrev pub next_nic_id : M TopologyGraph ℕ
next_nic_id g = let (answer, ids) = next_id g.nic_ids in (answer, record g { nic_ids = ids })

abbrev pub next_switch_id : M TopologyGraph ℕ
next_switch_id g =
    let (answer, ids) = next_id g.switch_ids in (answer, record g { switch_ids = ids })

abbrev pub next_rack_id : M TopologyGraph ℕ
next_rack_id g = let (answer, ids) = next_id g.rack_ids in (answer, record g { rack_ids = ids })

abbrev pub next_port_id : M TopologyGraph ℕ
next_port_id g = let (answer, ids) = next_id g.port_ids in (answer, record g { port_ids = ids })

abbrev pub next_link_id : M TopologyGraph ℕ
next_link_id g = let (answer, ids) = next_id g.link_ids in (answer, record g { link_ids = ids })

unfoldable pub add_rack : M TopologyGraph ℕ
add_rack = do
  id ← next_rack_id
  modify λ g. record g {
    racks = g.racks ++ record { id = id; gpus = []; nics = []; leaf_switches = [] } ∷ [];
  }
  pure id

unfoldable pub add_nic_known : ℕ → M TopologyGraph ℕ
unfolding modify_at
add_nic_known rack = do
  id ← next_nic_id
  modify λ g. record g {
    nics = g.nics ++ record { id = id; rack = rack; attached_gpus = []; ports = [] } ∷ [];
    nic_adjacency = g.nic_adjacency ++ [] ∷ [];
    racks = modify_at (λ (r : Rack). record r { nics = r.nics ++ id ∷ [] }) g.racks rack;
  }
  pure id

unfoldable pub add_nic : ℕ → M TopologyGraph ℕ
unfolding find_dense add_nic_known
add_nic rack g =
    if has_value (find_rack_entity g rack)
    then add_nic_known rack g
    else (err (invalid_argument "cannot add NIC to an unknown rack"), g)

abbrev pub push_arc : DirectedLink → List DirectedLink → List DirectedLink
push_arc arc arcs = arcs ++ arc ∷ []

-- `mutable_adjacency(node).push_back(arc)` for a node that is there.
unfoldable pub add_arc : NodeKind → ℕ → DirectedLink → TopologyGraph → TopologyGraph
unfolding modify_at
add_arc gpu value arc g = record g {
  gpu_adjacency = modify_at (push_arc arc) g.gpu_adjacency value;
}
add_arc nic value arc g = record g {
  nic_adjacency = modify_at (push_arc arc) g.nic_adjacency value;
}
add_arc switch value arc g = record g {
  switch_adjacency = modify_at (push_arc arc) g.switch_adjacency value;
}

unfoldable pub append_link : PhysicalLink → NodeId → NodeId → TopologyGraph → TopologyGraph
unfolding add_arc
append_link link endpoint_a endpoint_b g =
    add_arc endpoint_b.kind endpoint_b.value (arc_b_to_a link) (
      add_arc endpoint_a.kind endpoint_a.value (arc_a_to_b link)
        (record g { links = g.links ++ link ∷ [] }))

abbrev pub new_port : ℕ → NodeId → PortRole → Port
new_port id owner role = record { id = id; owner = owner; role = role; state = up }

abbrev pub new_link : ℕ → ℕ → ℕ → LinkKind → PhysicalLink
new_link id port_a port_b kind = record {
  id = id;
  endpoint_a = port_a;
  endpoint_b = port_b;
  kind = kind;
  state = up;
}

-- The end of `add_gpu`, with the IDs of the worker, its ports and its link.
unfoldable pub attach_gpu : ℕ → ℕ → ℕ → ℕ → ℕ → ℕ → TopologyGraph → TopologyGraph
unfolding modify_at append_link
attach_gpu rack attached gpu_id gpu_port nic_port link_id g =
    append_link (new_link link_id gpu_port nic_port local_attachment) (gpu_node gpu_id)
      (nic_node attached)
      (record g {
        gpus =
            g.gpus
            ++ record { id = gpu_id; rack = rack; attached_nic = attached; port = gpu_port } ∷ [];
        gpu_adjacency = g.gpu_adjacency ++ [] ∷ [];
        nics =
            modify_at
              (λ (n : Nic). record n {
                attached_gpus = n.attached_gpus ++ gpu_id ∷ [];
                ports = n.ports ++ nic_port ∷ [];
              })
              g.nics attached;
        racks = modify_at (λ (r : Rack). record r { gpus = r.gpus ++ gpu_id ∷ [] }) g.racks rack;
        ports =
            g.ports
            ++ new_port gpu_port (gpu_node gpu_id) local
              ∷ new_port nic_port (nic_node attached) local
              ∷ [];
      })

unfoldable pub add_gpu_known : ℕ → Nic → M TopologyGraph ℕ
unfolding attach_gpu
add_gpu_known attached n = do
  gpu_id ← next_gpu_id
  gpu_port ← next_port_id
  nic_port ← next_port_id
  link_id ← next_link_id
  modify (attach_gpu n.rack attached gpu_id gpu_port nic_port link_id)
  pure gpu_id

unfoldable pub add_gpu : ℕ → M TopologyGraph ℕ
unfolding find_dense add_gpu_known
add_gpu attached g = elim (find_nic g attached) [
  | none ↦ (err (invalid_argument "cannot add GPU to an unknown NIC"), g)
  | some n ↦ add_gpu_known attached n g
]

abbrev pub push_switch : ℕ → Option ℕ → SwitchRole → TopologyGraph → TopologyGraph
push_switch id rack role g = record g {
  switches =
      g.switches ++ record { id = id; rack = rack; role = role; ports = []; state = up } ∷ [];
  switch_adjacency = g.switch_adjacency ++ [] ∷ [];
}

unfoldable pub add_leaf_known : ℕ → M TopologyGraph ℕ
unfolding modify_at
add_leaf_known rack = do
  id ← next_switch_id
  modify (push_switch id (some rack) leaf)
  modify λ g. record g {
    racks =
        modify_at (λ (r : Rack). record r { leaf_switches = r.leaf_switches ++ id ∷ [] }) g.racks
          rack;
  }
  pure id

unfoldable pub add_leaf_switch : ℕ → M TopologyGraph ℕ
unfolding find_dense add_leaf_known
add_leaf_switch rack g =
    if has_value (find_rack_entity g rack)
    then add_leaf_known rack g
    else (err (invalid_argument "cannot add leaf switch to an unknown rack"), g)

unfoldable pub add_spine_switch : M TopologyGraph ℕ
add_spine_switch = do id ← next_switch_id; modify (push_switch id none spine); pure id

abbrev pub list_at : List (List DirectedLink) → ℕ → List DirectedLink
list_at [] i = []
list_at (arcs ∷ rest) zero = arcs
list_at (arcs ∷ rest) (suc i) = list_at rest i

-- The arcs of a node that is there.
abbrev pub adjacency_at : NodeKind → ℕ → TopologyGraph → List DirectedLink
adjacency_at gpu value g = list_at g.gpu_adjacency value
adjacency_at nic value g = list_at g.nic_adjacency value
adjacency_at switch value g = list_at g.switch_adjacency value

-- `outgoing` and `adjacency`; `other` stands for the exception `std::out_of_range`.
unfoldable pub outgoing : NodeId → TopologyGraph → Result (List DirectedLink)
outgoing node g =
    if contains_node node g then ok (adjacency_at node.kind node.value g) else err other

-- The loop of `directly_connected`.
unfoldable pub any_connects : TopologyGraph → NodeId → List DirectedLink → Result Bool
unfolding find_dense
any_connects g endpoint_b [] = ok false
any_connects g endpoint_b (arc ∷ arcs) = elim (find_port g arc.destination) [
  | none ↦ err (logic_error "topology adjacency references an unknown port")
  | some destination ↦
      let rest = any_connects g endpoint_b arcs in
      if node_eq destination.owner endpoint_b then ok true else rest
]

unfoldable pub directly_connected : NodeId → NodeId → TopologyGraph → Result Bool
unfolding outgoing any_connects
directly_connected endpoint_a endpoint_b g = elim (outgoing endpoint_a g) [
  | err e ↦ err e
  | ok arcs ↦ any_connects g endpoint_b arcs
]

-- `append_owner_port` for an owner that is there.
unfoldable pub append_owner_port : NodeKind → ℕ → ℕ → M TopologyGraph (Unit {0})
unfolding modify_at
append_owner_port gpu value port = throw (logic_error "GPU workers have exactly one local port")
append_owner_port nic value port = modify λ g. record g {
  nics = modify_at (λ (n : Nic). record n { ports = n.ports ++ port ∷ [] }) g.nics value;
}
append_owner_port switch value port = modify λ g. record g {
  switches = modify_at (λ (s : Switch). record s { ports = s.ports ++ port ∷ [] }) g.switches value;
}

abbrev pub is_gpu : NodeKind → Bool
is_gpu gpu = true
is_gpu _ = false

abbrev pub is_local : PortRole → Bool
is_local local = true
is_local _ = false

-- The end of `connect_fabric`.
unfoldable pub connect : NodeId → PortRole → NodeId → PortRole → M TopologyGraph ℕ
unfolding append_owner_port append_link
connect endpoint_a role_a endpoint_b role_b = do
  port_a ← next_port_id
  port_b ← next_port_id
  link_id ← next_link_id
  append_owner_port endpoint_a.kind endpoint_a.value port_a
  append_owner_port endpoint_b.kind endpoint_b.value port_b
  modify λ g. record g {
    ports = g.ports ++ new_port port_a endpoint_a role_a ∷ new_port port_b endpoint_b role_b ∷ [];
  }
  modify (append_link (new_link link_id port_a port_b fabric) endpoint_a endpoint_b)
  pure link_id

unfoldable pub connect_fabric : NodeId → PortRole → NodeId → PortRole → M TopologyGraph ℕ
unfolding contains_node directly_connected connect
connect_fabric endpoint_a role_a endpoint_b role_b g =
    if not (contains_node endpoint_a g) || not (contains_node endpoint_b g)
    then (err (invalid_argument "cannot connect an unknown topology node"), g)
    else if node_eq endpoint_a endpoint_b
    then (err (invalid_argument "cannot connect a topology node to itself"), g)
    else if is_gpu endpoint_a.kind || is_gpu endpoint_b.kind
    then (err (invalid_argument "GPU fabric connections must use the attached NIC"), g)
    else if is_local role_a || is_local role_b
    then (err (invalid_argument "fabric connections require fabric port roles"), g)
    else elim (directly_connected endpoint_a endpoint_b g) [
      | err e ↦ (err e, g)
      | ok true ↦ (err (invalid_argument "parallel physical links are not supported"), g)
      | ok false ↦ connect endpoint_a role_a endpoint_b role_b g
    ]
