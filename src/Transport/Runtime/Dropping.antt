-- ===== src/Transport/Runtime/Dropping.antt =====
-- The handlers of failures of transport/failure.cpp and runtime.cpp move chunks by a rule, as the others do.
use nexus_lab.Prelude.{
  ℕ, ◌≡◌, refl, arith, Bool, true, false, not, Option, none, some, List, [], ◌∷◌, map, has_value,
}
use nexus_lab.Prelude.State.{M, and_then, when}
use nexus_lab.Topology.Entities.{DirectedLinkId, OperationalState, LinkDirection, a_to_b, b_to_a}
use nexus_lab.Topology.Graph.{find_link, is_up, is_valid}
use nexus_lab.Topology.Operation.{is_operational, set_link_state, set_port_state, set_switch_state}
use nexus_lab.Sim.Event.{ChunkArrivalEvent, TransmissionCompleteEvent}
use nexus_lab.Sim.Env.{Env}
use nexus_lab.Transport.LinkQueue.{TransferChunk}
use nexus_lab.Transport.Runtime.{TransportRuntime, find_service, require_fabric_arc}
use nexus_lab.Transport.Runtime.Handlers.{handle_arrival}
use nexus_lab.Transport.Runtime.Completion.{handle_completion}
use nexus_lab.Transport.Runtime.Failures.{
  change_topology, is_fabric_link, mark_all, mark_active, mark_dropped_link_down, drain_link,
  drain_direction, handle_link_state_change, reconcile_link, reconcile_links, reconcile_unavailable,
  handle_port_state_change, handle_switch_state_change, link_of_service,
}
use nexus_lab.Transport.Runtime.Keeping.{
  same, emit_link-Kept, use_service-Kept, statistics_now-Kept,
}
use nexus_lab.Transport.Runtime.Moving.{
  Moved, Leads, still, after_still, after_move, after_require, after_answer, when-Leads,
}
use nexus_lab.Transport.Runtime.Rules.{arrival_rule, completion_rule, failure_rule}
use nexus_lab.Transport.Runtime.Steps.{mark-Leads, handle_arrival-Leads, handle_completion-Leads}

module _ {G S : Type 0} (env : Env G S) (Fails : DirectedLinkId → Type 0) where
  mark_all-Leads :
      (link : DirectedLinkId) (chunks : List TransferChunk) (t : TransportRuntime G S)
      → Fails link
      → Leads (failure_rule Fails) t.chunks (mark_all env link chunks t)
  unfolding mark_all
  mark_all-Leads link [] t fails = still (same refl)
  mark_all-Leads link (chunk ∷ chunks) t fails =
      after_move (mark-Leads env Fails t refl link chunk fails)
        (λ done u. mark_all-Leads link chunks u fails)

  mark_active-Leads :
      (link : DirectedLinkId) (active : Option TransferChunk) (t : TransportRuntime G S)
      → Fails link
      → Leads (failure_rule Fails) t.chunks (mark_active env link active t)
  unfolding mark_active
  mark_active-Leads link none t fails = still (same refl)
  mark_active-Leads link (some chunk) t fails = mark-Leads env Fails t refl link chunk fails

  drain_link-Leads :
      (link : DirectedLinkId) (t : TransportRuntime G S)
      → Fails link
      → Leads (failure_rule Fails) t.chunks (drain_link env link t)
  unfolding drain_link mark_dropped_link_down
  drain_link-Leads link t fails = after_still (statistics_now-Kept t refl link) (λ before u k.
      after_still (use_service-Kept u k link _) (λ drained v l.
        after_still (statistics_now-Kept v l link) (λ after w m. rw (← m) (
          after_move
            (after_move (mark_active-Leads link drained.active w fails)
              (λ done x. mark_all-Leads link drained.waiting x fails))
            (λ done x. still (emit_link-Kept env x refl link before after))))))

module _ {G S : Type 0} (env : Env G S) (Fails : DirectedLinkId → Type 0) where
  drain_direction-Leads :
      (link : ℕ) (direction : LinkDirection) (t : TransportRuntime G S)
      → Fails (record { link = link; direction = direction })
      → Leads (failure_rule Fails) t.chunks (drain_direction env link direction t)
  unfolding drain_direction
  drain_direction-Leads link direction t fails =
      when-Leads
        (has_value (find_service (record { link = link; direction = direction }) t.services))
        (drain_link env (record { link = link; direction = direction })) t refl
        (λ known.
          drain_link-Leads env Fails (record { link = link; direction = direction }) t fails)

  reconcile_link-Leads :
      (link : DirectedLinkId) (t : TransportRuntime G S)
      → ((link : DirectedLinkId) → Fails link)
      → Leads (failure_rule Fails) t.chunks (reconcile_link env link t)
  unfolding reconcile_link
  reconcile_link-Leads link t fail =
      after_answer (require_fabric_arc link t.topology)
        (λ directed u. when (not (is_operational directed t.topology)) (drain_link env link) u) t
        refl
        (λ directed there.
          when-Leads (not (is_operational directed t.topology)) (drain_link env link) t refl
            (λ broken. drain_link-Leads env Fails link t (fail link)))

  reconcile_links-Leads :
      (links : List DirectedLinkId) (t : TransportRuntime G S)
      → ((link : DirectedLinkId) → Fails link)
      → Leads (failure_rule Fails) t.chunks (reconcile_links env links t)
  unfolding reconcile_links
  reconcile_links-Leads [] t fail = still (same refl)
  reconcile_links-Leads (link ∷ links) t fail =
      after_move (reconcile_link-Leads link t fail) (λ done u. reconcile_links-Leads links u fail)

-- A change of a link drops chunks at that link alone, and none if the link comes up.
abbrev pub OfLink : ℕ → OperationalState → DirectedLinkId → Type 0
OfLink link state failed = (failed.link ≡ link) × (is_up state ≡ false)

-- A change of a port or a switch may drop chunks at any link.
abbrev pub AnyLink : DirectedLinkId → Type 0
AnyLink failed = Unit {0}

not-true : (b : Bool) → not b ≡ true → b ≡ false
not-true b h = ground arith

module _ {G S : Type 0} (env : Env G S) where
  abbrev drain_both : ℕ → M (TransportRuntime G S) (Unit {0})
  drain_both link t =
      and_then (drain_direction env link a_to_b t) (λ done u. drain_direction env link b_to_a u)

  drain_both-Leads :
      (link : ℕ) (state : OperationalState) (t : TransportRuntime G S)
      → is_up state ≡ false
      → Leads (failure_rule (OfLink link state)) t.chunks (drain_both link t)
  drain_both-Leads link state t lost =
      after_move (drain_direction-Leads env (OfLink link state) link a_to_b t (refl, lost))
        (λ done u. drain_direction-Leads env (OfLink link state) link b_to_a u (refl, lost))

  handle_link_state_change-Leads :
      (link : ℕ) (state : OperationalState) (t : TransportRuntime G S)
      → Leads
          (failure_rule (OfLink link state))
          t.chunks
          (handle_link_state_change env link state t)
  unfolding handle_link_state_change change_topology
  handle_link_state_change-Leads link state t =
      let (changed, g) = set_link_state link state t.topology in
      let u = record t { topology = g } in
      after_require (is_fabric_link (find_link t.topology link)) _ _ t refl (λ known.
        after_require (is_valid state) _ _ t refl (λ valid.
          after_require changed _ (λ done v. when (not (is_up state)) (drain_both link) v) u refl
            (λ done.
              when-Leads (not (is_up state)) (drain_both link) u refl
                (λ fails. drain_both-Leads link state u (not-true (is_up state) fails)))))

  handle_port_state_change-Leads :
      (port : ℕ) (state : OperationalState) (t : TransportRuntime G S)
      → Leads (failure_rule AnyLink) t.chunks (handle_port_state_change env port state t)
  unfolding handle_port_state_change change_topology reconcile_unavailable
  handle_port_state_change-Leads port state t =
      let (changed, g) = set_port_state port state t.topology in
      let u = record t { topology = g } in
      after_require (is_valid state) _ _ t refl (λ valid.
        after_require changed _ (λ done v. reconcile_links env (map link_of_service v.services) v) u
          refl
          (λ done.
            reconcile_links-Leads env AnyLink (map link_of_service t.services) u (λ link. tt)))

  handle_switch_state_change-Leads :
      (network_switch : ℕ) (state : OperationalState) (t : TransportRuntime G S)
      → Leads
          (failure_rule AnyLink)
          t.chunks
          (handle_switch_state_change env network_switch state t)
  unfolding handle_switch_state_change change_topology reconcile_unavailable
  handle_switch_state_change-Leads network_switch state t =
      let (changed, g) = set_switch_state network_switch state t.topology in
      let u = record t { topology = g } in
      after_require (is_valid state) _ _ t refl (λ valid.
        after_require changed _ (λ done v. reconcile_links env (map link_of_service v.services) v) u
          refl
          (λ done.
            reconcile_links-Leads env AnyLink (map link_of_service t.services) u (λ link. tt)))

-- What an event of the network may do to the chunks.
abbrev pub HandlersMove : {G S : Type 0} → Env G S → TransportRuntime G S → Type 0
HandlersMove env t =
    ((e : ChunkArrivalEvent)
      → Moved (arrival_rule e t.topology) t.chunks (handle_arrival env e t).1.chunks)
    × ((e : TransmissionCompleteEvent)
        → Moved (completion_rule e) t.chunks (handle_completion env e t).1.chunks)
    × ((link : ℕ) (state : OperationalState)
        → Moved (failure_rule (OfLink link state)) t.chunks
            (handle_link_state_change env link state t).1.chunks)
    × ((port : ℕ) (state : OperationalState)
        → Moved (failure_rule AnyLink) t.chunks
            (handle_port_state_change env port state t).1.chunks)
    × ((network_switch : ℕ) (state : OperationalState)
        → Moved (failure_rule AnyLink) t.chunks
            (handle_switch_state_change env network_switch state t).1.chunks)

-- Whatever the event and the outcome, exceptions included, the five handlers keep every chunk and its
-- route, leave the record of a chunk that was delivered or dropped as it is, and change the state of
-- no chunk but as follows. An arrival takes its own chunk alone, from awaiting: to delivered if the
-- event is at the end of the route, else, by the link at the event's hop, to admitted or dropped for a
-- full buffer if the link works, and to dropped at a link that is down if it does not. A completion
-- takes its own chunk alone, from admitted to awaiting. A failure takes admitted chunks to dropped at
-- a link that is down: that of a link only those with that link on their route, and none if the link
-- comes up.
pub handlers-Moved : {G S : Type 0} (env : Env G S) (t : TransportRuntime G S) → HandlersMove env t
handlers-Moved env t = (
  λ e. (handle_arrival-Leads env e t).moved,
  λ e. (handle_completion-Leads env e t).moved,
  λ link state. (handle_link_state_change-Leads env link state t).moved,
  λ port state. (handle_port_state_change-Leads env port state t).moved,
  λ network_switch state. (handle_switch_state_change-Leads env network_switch state t).moved,
)
