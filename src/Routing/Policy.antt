-- ===== src/Routing/Policy.antt =====
-- routing/policy.hpp and policy.cpp: the policies that choose among the paths of a transfer.
use Prim.Native.Nat.{bit_xor}
use Prim.Native.String.{String}
use text.Mathlib.Text.{◌==◌ as str_eq}
use nexus_lab.Prelude.{
  ℕ, zero, suc, ◌+◌, ◌-◌, ◌*◌, ◌/◌, ◌%◌, not, ◌&&◌, ◌||◌, Option, none, some, List, [], ◌∷◌, min,
  ltb, ◌==◌, if◌then◌else◌, has_value, length, u64_max, u64_mod,
}
use nexus_lab.Prelude.Except.{invalid_argument, overflow_error, Result, ok, err}
use nexus_lab.Topology.Entities.{NodeKind, gpu, nic, switch, DirectedLinkId, direction_eq}
use nexus_lab.Topology.Resources.{NodeId}
use nexus_lab.Transport.Timing.{serialization_delay}
use nexus_lab.Transport.LinkQueue.{TransferChunk}
use nexus_lab.Transport.LinkService.{DirectedLinkService}

-- `Path` of paths.hpp.
abbrev pub Route : Type 0
Route = List DirectedLinkId

-- `Endpoints` of paths.hpp.
pub record Endpoints : Type 0 where
  pub source : NodeId
  pub destination : NodeId

pub record RouteRequest : Type 0 where
  pub flow : ℕ
  pub endpoints : Endpoints
  pub bytes : ℕ
  pub maximum_chunk_bytes : ℕ

pub record LinkLoad : Type 0 where
  pub outstanding_bytes : ℕ
  pub bandwidth : ℕ
  pub propagation : ℕ

pub record RouteChoice : Type 0 where
  pub candidate : ℕ
  pub score : ℕ
  pub reason : String

-- The links of the transport runtime that a view refers to, with their services.
abbrev pub FabricView : Type 0
FabricView = List (DirectedLinkId × DirectedLinkService)

pub record PolicyInput : Type 0 where
  pub request : RouteRequest
  pub seed : ℕ
  pub candidates : List Route
  pub fabric : FabricView

unfoldable pub add : ℕ → ℕ → Result ℕ
add left right =
    if ltb (u64_max - left) right
    then err (overflow_error "routing score overflow")
    else ok (left + right)

-- `TransportRuntime::find_service`
unfoldable pub find_service : FabricView → DirectedLinkId → Option DirectedLinkService
find_service [] link = none
find_service ((id, service) ∷ rest) link =
    if id.link == link.link && direction_eq id.direction link.direction
    then some service
    else find_service rest link

abbrev pub active_bytes : Option TransferChunk → ℕ
active_bytes none = 0
active_bytes (some active) = active.bytes

abbrev pub load_of : Option DirectedLinkService → Result LinkLoad
load_of none = err (invalid_argument "routing path uses unconfigured transport arc")
load_of (some service) =
    let queue = service.queue in
    elim (add queue.waiting_bytes (active_bytes queue.active)) [
      | err e ↦ err e
      | ok bytes ↦ ok (record {
        outstanding_bytes = bytes;
        bandwidth = queue.configuration.bandwidth;
        propagation = queue.configuration.propagation_delay;
      })
    ]

-- `FabricView::read`
unfoldable pub read : FabricView → DirectedLinkId → Result LinkLoad
unfolding find_service
read fabric link = load_of (find_service fabric link)

pub data Kind : Type 0 where
  shortest ecmp least_loaded queue_aware : Kind

abbrev pub add_delay : ℕ → LinkLoad → Option ℕ → Result ℕ
add_delay result load none = err (overflow_error "queue-aware delay overflow")
add_delay result load (some delay) = elim (add delay load.propagation) [
  | err e ↦ err e
  | ok total ↦ add result total
]

-- One step of `score`: the load of a link on top of `result`.
unfoldable pub add_load : Kind → RouteRequest → ℕ → LinkLoad → Result ℕ
add_load least_loaded request result load = add result load.outstanding_bytes
add_load _ request result load =
    elim (add load.outstanding_bytes (min request.bytes request.maximum_chunk_bytes)) [
      | err e ↦ err e
      | ok bytes ↦ add_delay result load (serialization_delay bytes load.bandwidth)
    ]

unfoldable pub score_from : Kind → PolicyInput → ℕ → Route → Result ℕ
unfolding add_load
score_from kind input result [] = ok result
score_from kind input result (link ∷ path) = elim (read input.fabric link) [
  | err e ↦ err e
  | ok load ↦ elim (add_load kind input.request result load) [
    | err e ↦ err e
    | ok next ↦ score_from kind input next path
  ]
]

unfoldable pub score : Kind → PolicyInput → Route → Result ℕ
unfolding score_from
score kind input path = score_from kind input 0 path

-- `static_cast<std::uint64_t>(kind)` of a node's kind.
abbrev pub node_kind_value : NodeKind → ℕ
node_kind_value gpu = 1
node_kind_value nic = 2
node_kind_value switch = 3

abbrev pub fnv_prime : ℕ
fnv_prime = 1099511628211

-- The loop over the bytes of a field, the low one first.
unfoldable pub hash_bytes : ℕ → ℕ → ℕ → ℕ
hash_bytes zero field hash = hash
hash_bytes (suc left) field hash =
    hash_bytes left (field / 256) (bit_xor hash (field % 256) * fnv_prime % u64_mod)

unfoldable pub hash_fields : List ℕ → ℕ → ℕ
unfolding hash_bytes
hash_fields [] hash = hash
hash_fields (field ∷ fields) hash = hash_fields fields (hash_bytes 8 field hash)

unfoldable pub ecmp_hash : RouteRequest → ℕ → ℕ
unfolding hash_fields
ecmp_hash r seed =
    hash_fields
      (1
        ∷ seed
        ∷ r.flow
        ∷ node_kind_value r.endpoints.source.kind
        ∷ r.endpoints.source.value
        ∷ node_kind_value r.endpoints.destination.kind
        ∷ r.endpoints.destination.value
        ∷ [])
      14695981039346656037

-- The loop of `choose`, from the candidate of number `index` on.
unfoldable pub choose_rest : Kind → PolicyInput → RouteChoice → ℕ → List Route → Result RouteChoice
choose_rest kind input best index [] = ok best
choose_rest kind input best index (path ∷ paths) = elim (score kind input path) [
  | err e ↦ err e
  | ok s ↦
      choose_rest kind input
        (if ltb s best.score then record best { candidate = index; score = s } else best)
        (index + 1) paths
]

abbrev pub scored_reason : Kind → String
scored_reason least_loaded = "minimum outstanding byte sum"
scored_reason _ = "minimum estimated first-chunk delay ns"

abbrev pub no_candidates : {A : Type 0} → Result A
no_candidates = err (invalid_argument "policy requires candidates and nonzero transfer quantities")

-- `choose` for a policy that compares scores.
unfoldable pub choose_scored : Kind → PolicyInput → List Route → Result RouteChoice
unfolding choose_rest
choose_scored kind input [] = no_candidates
choose_scored kind input (path ∷ paths) = elim (score kind input path) [
  | err e ↦ err e
  | ok s ↦
      choose_rest kind input (record { candidate = 0; score = s; reason = scored_reason kind }) 1
        paths
]

abbrev pub choose_kind : Kind → PolicyInput → Result RouteChoice
choose_kind shortest input =
    ok (record { candidate = 0; score = 0; reason = "canonical minimum-hop path" })
choose_kind ecmp input = ok (record {
  candidate = ecmp_hash input.request input.seed % length input.candidates;
  score = 0;
  reason = "stable flow hash over all equal-hop paths";
})
choose_kind least_loaded input = choose_scored least_loaded input input.candidates
choose_kind queue_aware input = choose_scored queue_aware input input.candidates

-- `BaselinePolicy::choose`
unfoldable pub choose : Kind → PolicyInput → Result RouteChoice
choose kind input =
    if length input.candidates == 0
      || input.request.bytes == 0
      || input.request.maximum_chunk_bytes == 0
    then no_candidates
    else choose_kind kind input

-- A policy, by its virtual functions.
pub record RoutingPolicy : Type 0 where
  pub name : String
  pub version : ℕ
  pub choose_route : PolicyInput → Result RouteChoice

abbrev pub baseline : String → Kind → RoutingPolicy
baseline name kind = record { name = name; version = 1; choose_route = choose kind }

-- What the factories that are no empty `std::function` return, by their names; a factory may return
-- no policy.
abbrev pub PolicyRegistry : Type 0
PolicyRegistry = List (String × Option RoutingPolicy)

unfoldable pub find_factory : String → PolicyRegistry → Option (Option RoutingPolicy)
find_factory name [] = none
find_factory name ((key, made) ∷ rest) =
    if str_eq key name then some made else find_factory name rest

abbrev pub bad_registration : PolicyRegistry → Result (Unit {0}) × PolicyRegistry
bad_registration registry =
    (err (invalid_argument "invalid or duplicate routing policy registration"), registry)

-- `PolicyRegistry::add`; `none` is an empty factory.
unfoldable pub register :
    String → Option (Option RoutingPolicy) → PolicyRegistry → Result (Unit {0}) × PolicyRegistry
unfolding find_factory
register name none registry = bad_registration registry
register name (some made) registry =
    if str_eq name "" || has_value (find_factory name registry)
    then bad_registration registry
    else (ok tt, (name, made) ∷ registry)

-- The end of `create`, for the policy that the factory returned.
abbrev pub check_policy : String → Option RoutingPolicy → Result RoutingPolicy
check_policy name none = err (invalid_argument "routing factory returned invalid policy identity")
check_policy name (some policy) =
    if not (str_eq policy.name name) || policy.version == 0
    then err (invalid_argument "routing factory returned invalid policy identity")
    else ok policy

-- `PolicyRegistry::create`
unfoldable pub create : String → PolicyRegistry → Result RoutingPolicy
unfolding find_factory
create name registry = elim (find_factory name registry) [
  | none ↦ err (invalid_argument "unknown routing policy")
  | some made ↦ check_policy name made
]

abbrev pub register_baseline : String → Kind → PolicyRegistry → PolicyRegistry
register_baseline name kind registry = (register name (some (some (baseline name kind))) registry).1

-- The constructor of the registry.
unfoldable pub new_registry : PolicyRegistry
unfolding register
new_registry = register_baseline "queue-aware" queue_aware (
    register_baseline "least-loaded" least_loaded
      (register_baseline "ecmp" ecmp (register_baseline "shortest-path" shortest [])))
