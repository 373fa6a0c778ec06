-- ===== src/Topology/Outage.antt =====
-- topology/graph.cpp: what a change of the state of a link does to the arcs of the graph.
use nexus_lab.Prelude.{
  ℕ, zero, suc, ◌+◌, ◌≡◌, ◌≢◌, ◌⊎◌, refl, sym, ap, ◌∙◌, inl, inr, Bool, true, false, ◌||◌, Option,
  none, some, List, [], ◌∷◌, arith, get_elem?, ◌==◌, Bool-cases, ==_iff, u64_max,
}
use nexus_lab.Topology.Entities.{
  NodeKind, gpu, nic, switch, OperationalState, up, down, invalid, PhysicalLink, DirectedLink,
}
use nexus_lab.Topology.Graph.{
  TopologyGraph, contains_at, contains_node, is_valid, state_eq, directed_link_eq, arc_a_to_b,
  arc_b_to_a, dense_at, find_dense, modify_at, find_port, find_link,
}
use nexus_lab.Topology.Resources.{NodeId, Port}
use nexus_lab.Topology.Operation.{
  node_is_operational, change_state, link_state, set_link_state, arc_is_operational, is_operational,
}

module _ {A : Type 0} (id_of : A → ℕ) (f : A → A) (keeps : (e : A) → id_of (f e) ≡ id_of e) where
  find_dense_changed :
      (xs : List A) (i id : ℕ) (x : A)
      → dense_at id_of id (get_elem? xs i) ≡ some x
      → dense_at id_of id (get_elem? (modify_at f xs i) i) ≡ some (f x)
  unfolding modify_at
  find_dense_changed [] i id x h = let impossible : ⊥ = cc in absurd impossible
  find_dense_changed (e ∷ es) zero id x h = elim (Bool-cases (id_of e == id)) [
    | inl here ↦ let found = rw here at h in let same : e ≡ x = cc in rw (keeps e, here, same) refl
    | inr there ↦ let lost = rw there at h in let impossible : ⊥ = cc in absurd impossible
  ]
  find_dense_changed (e ∷ es) (suc i) id x h = find_dense_changed es i id x h

  get_elem?_other :
      (xs : List A) (i j : ℕ) → i ≢ j → get_elem? (modify_at f xs i) j ≡ get_elem? xs j
  unfolding modify_at
  get_elem?_other [] i j differ = refl
  get_elem?_other (e ∷ es) zero zero differ = absurd (differ refl)
  get_elem?_other (e ∷ es) zero (suc j) differ = refl
  get_elem?_other (e ∷ es) (suc i) zero differ = refl
  get_elem?_other (e ∷ es) (suc i) (suc j) differ =
      get_elem?_other es i j (λ h. differ (ap (λ (n : ℕ). suc n) h))

-- The state of a link says nothing of the nodes.
abbrev with_links : TopologyGraph → List PhysicalLink → ℕ → TopologyGraph
with_links g ls revision = record g { links = ls; operational_revision = revision }

contains_at-with_links :
    (kind : NodeKind) (value : ℕ) (g : TopologyGraph) (ls : List PhysicalLink) (revision : ℕ)
    → contains_at kind value (with_links g ls revision) ≡ contains_at kind value g
contains_at-with_links gpu value g ls revision = refl
contains_at-with_links nic value g ls revision = refl
contains_at-with_links switch value g ls revision = refl

node_is_operational-with_links :
    (node : NodeId) (g : TopologyGraph) (ls : List PhysicalLink) (revision : ℕ)
    → node_is_operational node (with_links g ls revision) ≡ node_is_operational node g
unfolding node_is_operational contains_node find_dense
node_is_operational-with_links node g ls revision =
    rw (contains_at-with_links node.kind node.value g ls revision) refl

arc_is_operational-with_links :
    (arc : DirectedLink) (l : Option PhysicalLink) (source destination : Option Port)
    (g : TopologyGraph) (ls : List PhysicalLink) (revision : ℕ)
    → arc_is_operational arc l source destination (with_links g ls revision)
      ≡ arc_is_operational arc l source destination g
unfolding arc_is_operational
arc_is_operational-with_links arc none s d g ls revision = refl
arc_is_operational-with_links arc (some l) none d g ls revision = refl
arc_is_operational-with_links arc (some l) (some s) none g ls revision = refl
arc_is_operational-with_links arc (some l) (some s) (some d) g ls revision =
    rw
      (
        node_is_operational-with_links s.owner g ls revision,
        node_is_operational-with_links d.owner g ls revision,
      )
      refl

-- An arc of a link that is down is not operational.
arc_is_operational-down :
    (arc : DirectedLink) (l : PhysicalLink) (source destination : Option Port) (g : TopologyGraph)
    → l.state ≡ down
    → arc_is_operational arc (some l) source destination g ≡ false
unfolding arc_is_operational
arc_is_operational-down arc l none d g isDown = refl
arc_is_operational-down arc l (some s) none g isDown = refl
arc_is_operational-down arc l (some s) (some d) g isDown =
    rw isDown
      (elim (Bool-cases
        (directed_link_eq arc (arc_a_to_b l) || directed_link_eq arc (arc_b_to_a l))) [
          | inl matches ↦ rw matches refl
          | inr differs ↦ rw differs refl
        ])

state_eq-true : (a b : OperationalState) → state_eq a b ≡ true → a ≡ b
state_eq-true up up h = refl
state_eq-true down down h = refl
state_eq-true invalid invalid h = refl
state_eq-true up down h = let impossible : ⊥ = cc in absurd impossible
state_eq-true up invalid h = let impossible : ⊥ = cc in absurd impossible
state_eq-true down up h = let impossible : ⊥ = cc in absurd impossible
state_eq-true down invalid h = let impossible : ⊥ = cc in absurd impossible
state_eq-true invalid up h = let impossible : ⊥ = cc in absurd impossible
state_eq-true invalid down h = let impossible : ⊥ = cc in absurd impossible

state_eq-false : (a b : OperationalState) → state_eq a b ≡ false → a ≢ b
state_eq-false up up h same = let impossible : ⊥ = cc in absurd impossible
state_eq-false up down h same = let impossible : ⊥ = cc in absurd impossible
state_eq-false up invalid h same = let impossible : ⊥ = cc in absurd impossible
state_eq-false down up h same = let impossible : ⊥ = cc in absurd impossible
state_eq-false down down h same = let impossible : ⊥ = cc in absurd impossible
state_eq-false down invalid h same = let impossible : ⊥ = cc in absurd impossible
state_eq-false invalid up h same = let impossible : ⊥ = cc in absurd impossible
state_eq-false invalid down h same = let impossible : ⊥ = cc in absurd impossible
state_eq-false invalid invalid h same = let impossible : ⊥ = cc in absurd impossible

-- Only the operational revision and the link of `id` are changed.
abbrev pub LinkAnswers : ℕ → OperationalState → TopologyGraph → Bool × TopologyGraph → Type 0
LinkAnswers id state g (answer, h) =
    ((answer ≡ false)
      × (h ≡ g)
      × ((find_link g id ≡ none)
          ⊎ (state ≡ invalid)
          ⊎ ((l : PhysicalLink) × (find_link g id ≡ some l)
              × (l.state ≢ state)
              × (g.operational_revision ≡ u64_max))))
    ⊎ ((l : PhysicalLink) × (answer ≡ true)
        × (state ≢ invalid)
        × (find_link g id ≡ some l)
        × (find_link h id ≡ some (record l { state = state }))
        × (((l.state ≡ state) × (h.operational_revision ≡ g.operational_revision))
            ⊎ ((l.state ≢ state)
                × (g.operational_revision ≢ u64_max)
                × (h.operational_revision ≡ g.operational_revision + 1)))
        × ((arc : DirectedLink) → arc.id.link ≡ id → state ≡ down → is_operational arc h ≡ false)
        × ((arc : DirectedLink) → arc.id.link ≢ id → is_operational arc h ≡ is_operational arc g))

abbrev set_state : OperationalState → PhysicalLink → PhysicalLink
set_state state l = record l { state = state }

link_id : PhysicalLink → ℕ
link_id l = l.id

-- The arcs of a graph in which the link of `id` is `l` with the new state.
changed_arcs :
    (id : ℕ) (state : OperationalState) (g : TopologyGraph) (revision : ℕ) (l : PhysicalLink)
    → find_link g id ≡ some l
    → let h = with_links g (modify_at (set_state state) g.links id) revision in
      (find_link h id ≡ some (set_state state l))
      × ((arc : DirectedLink) → arc.id.link ≡ id → state ≡ down → is_operational arc h ≡ false)
      × ((arc : DirectedLink) → arc.id.link ≢ id → is_operational arc h ≡ is_operational arc g)
unfolding is_operational find_dense
changed_arcs id state g revision l found =
    let h = with_links g (modify_at (set_state state) g.links id) revision in
    let now =
      find_dense_changed (λ (e : PhysicalLink). e.id) (set_state state) (λ e. refl) g.links id id l
        found in
    (
      now,
      (λ arc same isDown.
          let there = ap (λ (n : ℕ). find_link h n) same ∙ now in
          ap
            (λ (o : Option PhysicalLink).
              arc_is_operational arc o (find_port g arc.source) (find_port g arc.destination) h)
            there
          ∙ arc_is_operational-down arc (set_state state l) (find_port g arc.source)
              (find_port g arc.destination) h isDown),
      (λ arc differ.
          rw
            (get_elem?_other (λ (e : PhysicalLink). e.id) (set_state state) (λ e. refl) g.links id
              arc.id.link (λ h. differ (sym h)))
            (arc_is_operational-with_links arc (find_link g arc.id.link) (find_port g arc.source)
              (find_port g arc.destination) g (modify_at (set_state state) g.links id) revision)),
    )

-- A link that has the state already.
unchanged_arcs :
    (id : ℕ) (state : OperationalState) (g : TopologyGraph) (l : PhysicalLink)
    → find_link g id ≡ some l
    → l.state ≡ state
    → (find_link g id ≡ some (set_state state l))
      × ((arc : DirectedLink) → arc.id.link ≡ id → state ≡ down → is_operational arc g ≡ false)
      × ((arc : DirectedLink) → arc.id.link ≢ id → is_operational arc g ≡ is_operational arc g)
unfolding is_operational find_dense
unchanged_arcs id state g l found same = (
  found ∙ ap (λ (s : OperationalState). some (set_state s l)) same,
  (λ arc isLink isDown.
      let there = ap (λ (n : ℕ). find_link g n) isLink ∙ found in
      ap
        (λ (o : Option PhysicalLink).
          arc_is_operational arc o (find_port g arc.source) (find_port g arc.destination) g)
        there
      ∙ arc_is_operational-down arc l (find_port g arc.source) (find_port g arc.destination) g
          (same ∙ isDown)),
  (λ arc differ. refl),
)

change_of_found :
    (id : ℕ) (state : OperationalState) (g : TopologyGraph) (l : PhysicalLink)
    → find_link g id ≡ some l
    → is_valid state ≡ true
    → state ≢ invalid
    → LinkAnswers id state g (
        change_state
          (some l.state)
          state
          g
          (record g { links = modify_at (set_state state) g.links id }))
unfolding find_dense
change_of_found id state g l found valid proper = elim (Bool-cases (state_eq l.state state)) [
  | inl same ↦
      let isState = state_eq-true l.state state same in
      let (there, dead, others) = unchanged_arcs id state g l found isState in
      rw (valid, same) (inr (l, refl, proper, found, there, inl (isState, refl), dead, others))
  | inr differ ↦ elim (Bool-cases (g.operational_revision == u64_max)) [
    | inl full ↦
        rw (valid, differ, full)
          (inl (
            refl,
            refl,
            inr (
                inr (
                  l,
                  found,
                  state_eq-false l.state state differ,
                  (==_iff g.operational_revision u64_max).0 full,
                )),
          ))
    | inr room ↦
        let (there, dead, others) = changed_arcs id state g (g.operational_revision + 1) l found in
        rw (valid, differ, room)
          (inr (
            l,
            refl,
            proper,
            found,
            there,
            inr (state_eq-false l.state state differ, ground (arith, room), refl),
            dead,
            others,
          ))
  ]
]

change_of_link :
    (id : ℕ) (state : OperationalState) (g : TopologyGraph) (o : Option PhysicalLink)
    → find_link g id ≡ o
    → LinkAnswers id state g (
        change_state
          (link_state o)
          state
          g
          (record g { links = modify_at (set_state state) g.links id }))
unfolding find_dense
change_of_link id state g none lost = inl (refl, refl, inl lost)
change_of_link id invalid g (some l) found = inl (refl, refl, inr (inl refl))
change_of_link id up g (some l) found =
    change_of_found id up g l found refl (λ h. let impossible : ⊥ = cc in absurd impossible)
change_of_link id down g (some l) found =
    change_of_found id down g l found refl (λ h. let impossible : ⊥ = cc in absurd impossible)

-- Setting the state of a link answers false and changes nothing when the graph has no such link, when
-- the state is neither up nor down, or when the link has another state and the revision is at its
-- greatest value. Otherwise it answers true, the link has the new state, and the revision rises by
-- one if and only if the state was another one. No arc of a link that was set down is operational
-- then, and each arc of another link is operational if and only if it was before.
pub set_link_state_cases :
    (id : ℕ) (state : OperationalState) (g : TopologyGraph)
    → LinkAnswers id state g (set_link_state id state g)
unfolding set_link_state find_dense
set_link_state_cases id state g = change_of_link id state g (find_link g id) refl
