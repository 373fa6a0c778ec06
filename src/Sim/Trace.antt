-- ===== src/Sim/Trace.antt =====
-- sim/trace.cpp: the trace log, and the running FNV-1a hash of its records.
pub mod Encoding
pub mod Hash
use Prim.Native.Nat.{bit_xor}
use nexus_lab.Prelude.{
  ℕ, zero, suc, ◌+◌, ◌*◌, ◌/◌, ◌%◌, ◌^◌, ◌≡◌, refl, Bool, true, false, Option, none, some, List, [],
  ◌∷◌, ◌++◌, length, arith, if◌then◌else◌, u64_mod,
}
use nexus_lab.Prelude.Except.{Text}
use nexus_lab.Sim.Event.{
  EventPriority, priority_value, EventPayloadKind, no_op, chunk_arrival, transmission_complete,
  link_state_change, port_state_change, switch_state_change, workload, local_collective_completion,
}

pub data TraceMode : Type 0 where
  disabled enabled : TraceMode

pub data TraceAction : Type 0 where
  scheduled dispatched cancelled stop_requested completed failed : TraceAction

pub data StopReason : Type 0 where
  requested : StopReason

-- The enumerators' values.
abbrev pub action_value : TraceAction → ℕ
action_value scheduled = 1
action_value dispatched = 2
action_value cancelled = 3
action_value stop_requested = 4
action_value completed = 5
action_value failed = 6

abbrev pub kind_value : EventPayloadKind → ℕ
kind_value no_op = 1
kind_value chunk_arrival = 2
kind_value transmission_complete = 3
kind_value link_state_change = 4
kind_value port_state_change = 5
kind_value switch_state_change = 6
kind_value workload = 7
kind_value local_collective_completion = 8

abbrev pub stop_value : StopReason → ℕ
stop_value requested = 1

pub record TraceRecord : Type 0 where
  pub action : TraceAction
  pub recorded_at : ℕ
  pub event_id : Option ℕ
  pub cause : Option ℕ
  pub event_timestamp : Option ℕ
  pub priority : Option EventPriority
  pub payload_kind : Option EventPayloadKind
  pub stop_reason : Option StopReason
  pub error : Option Text

abbrev pub fnv_prime : ℕ
fnv_prime = 1099511628211

abbrev pub fnv_offset_basis : ℕ
fnv_offset_basis = 14695981039346656037

unfoldable pub hash_byte : ℕ → ℕ → ℕ
hash_byte hash value = bit_xor hash value * fnv_prime % u64_mod

-- `rounds` rounds of the loop of `hash_u64`, from byte `index` on.
unfoldable pub hash_bytes_of : ℕ → ℕ → ℕ → ℕ → ℕ
hash_bytes_of zero index value hash = hash
hash_bytes_of (suc rounds) index value hash =
    hash_bytes_of rounds (index + 1) value (hash_byte hash (value / 2 ^ (index * 8) % 256))

unfoldable pub hash_u64 : ℕ → ℕ → ℕ
unfolding hash_bytes_of
hash_u64 hash value = hash_bytes_of 8 0 value hash

unfoldable pub hash_optional : {V : Type 0} → ℕ → Option V → (ℕ → V → ℕ) → ℕ
hash_optional hash none encoder = hash_byte hash 0
hash_optional hash (some value) encoder = encoder (hash_byte hash 1) value

unfoldable pub hash_characters : ℕ → Text → ℕ
hash_characters hash [] = hash
hash_characters hash (c ∷ cs) = hash_characters (hash_byte hash c) cs

unfoldable pub hash_error : ℕ → Text → ℕ
hash_error hash error = hash_characters (hash_u64 hash (length error)) error

abbrev pub hash_priority : ℕ → EventPriority → ℕ
hash_priority hash priority = hash_byte hash (priority_value priority)

abbrev pub hash_payload_kind : ℕ → EventPayloadKind → ℕ
hash_payload_kind hash kind = hash_byte hash (kind_value kind)

abbrev pub hash_stop_reason : ℕ → StopReason → ℕ
hash_stop_reason hash reason = hash_byte hash (stop_value reason)

unfoldable pub hash_record : ℕ → TraceRecord → ℕ
hash_record h0 record' =
    let h1 = hash_byte h0 (action_value record'.action) in
    let h2 = hash_u64 h1 record'.recorded_at in
    let h3 = hash_optional h2 record'.event_id hash_u64 in
    let h4 = hash_optional h3 record'.cause hash_u64 in
    let h5 = hash_optional h4 record'.event_timestamp hash_u64 in
    let h6 = hash_optional h5 record'.priority hash_priority in
    let h7 = hash_optional h6 record'.payload_kind hash_payload_kind in
    let h8 = hash_optional h7 record'.stop_reason hash_stop_reason in
    hash_optional h8 record'.error hash_error

pub record TraceLog : Type 0 where
  pub mode : TraceMode
  pub records : List TraceRecord
  pub hash_ : ℕ

unfoldable pub new_log : TraceMode → TraceLog
new_log mode = record { mode = mode; records = []; hash_ = fnv_offset_basis }

abbrev pub is_enabled : TraceMode → Bool
is_enabled disabled = false
is_enabled enabled = true

unfoldable pub append : TraceRecord → TraceLog → TraceLog
append r log =
    if is_enabled log.mode
    then record log { records = log.records ++ (r ∷ []); hash_ = hash_record log.hash_ r }
    else log

unfoldable pub hash : TraceLog → Option ℕ
hash log = if is_enabled log.mode then some log.hash_ else none
