-- ===== src/Telemetry/Retaining.antt =====
-- telemetry/session.cpp: a record that a session keeps, behind the tests of its limits.
use nexus_lab.Prelude.{
  ℕ, ◌+◌, ◌-◌, ◌≤◌, ◌<◌, ◌≡◌, sym, inl, inr, Bool, true, false, Option, [], ◌∷◌, ◌++◌, arith,
  length, length-append, ltb, leb, ◌==◌, if◌then◌else◌, Bool-cases, u64_max,
}
use nexus_lab.Prelude.Except.{ok}
use nexus_lab.Telemetry.Records.{
  Correlation, TelemetryObservation, correlation_edge_count, is_decision_observation,
}
use nexus_lab.Telemetry.Session.{
  TelemetryRecord, TelemetrySession, retained_edge_count, retained, push_record,
}
use nexus_lab.Telemetry.Accounts.{
  count_decisions, total_edges, Within, count_decisions-append, total_edges-append, Numbered-append,
  Emitted,
}

-- What `retained` has checked of a session.
pub record Room {B : Type 0} (decision : Bool) (edges : ℕ) (v : TelemetrySession B) (sum : ℕ)
    : Type 0 where
  pub decision_room :
      decision ≡ true → v.retained_decisions < v.configuration.limits.decision_records
  pub domain_room :
      decision ≡ false → v.retained_domain_records < v.configuration.limits.domain_records
  pub sum_of : sum ≡ v.retained_edges + edges
  pub edge_room : sum ≤ v.configuration.limits.correlation_edges
  pub ids_left : v.record_ids_exhausted ≡ false

module _ {B : Type 0} where
  pub retained_edge_count_cases :
      (edges : ℕ) (v : TelemetrySession B) (sum : ℕ)
      → retained_edge_count edges v ≡ ok sum
      → (sum ≡ v.retained_edges + edges)
        × (sum ≤ v.configuration.limits.correlation_edges)
        × (v.record_ids_exhausted ≡ false)
  unfolding retained_edge_count
  retained_edge_count_cases edges v sum h =
      elim (Bool-cases (ltb (u64_max - v.retained_edges) edges)) [
        | inl over ↦
            let refused = rw (over, retained_edge_count) at h in
            let impossible : ⊥ = cc in absurd impossible
        | inr fits ↦
            let summed = rw (fits, retained_edge_count) at h in
            elim (Bool-cases
              (ltb v.configuration.limits.correlation_edges (v.retained_edges + edges))) [
                | inl over ↦
                    let refused = rw over at summed in let impossible : ⊥ = cc in absurd impossible
                | inr room ↦
                    let limited = rw room at summed in
                    elim (Bool-cases v.record_ids_exhausted) [
                      | inl over ↦
                          let refused = rw over at limited in
                          let impossible : ⊥ = cc in absurd impossible
                      | inr left ↦
                          let counted = rw left at limited in
                          let same : v.retained_edges + edges ≡ sum = cc in
                          (sym same, ground arith, left)
                    ]
              ]
      ]

  pub retained-Room :
      (decision : Bool) (edges : ℕ) (v : TelemetrySession B) (sum : ℕ)
      → retained decision edges v ≡ ok sum
      → Room decision edges v sum
  unfolding retained
  retained-Room true edges v sum h =
      elim (Bool-cases (leb v.configuration.limits.decision_records v.retained_decisions)) [
        | inl over ↦
            let refused = rw (over, retained) at h in let impossible : ⊥ = cc in absurd impossible
        | inr room ↦
            let (sum_of, edge_room, left) =
              retained_edge_count_cases edges v sum (rw (room, retained) at h) in
            record {
              decision_room = λ e. ground arith;
              domain_room = λ e. let impossible : ⊥ = cc in absurd impossible;
              sum_of = sum_of;
              edge_room = edge_room;
              ids_left = left;
            }
      ]
  retained-Room false edges v sum h =
      elim (Bool-cases (leb v.configuration.limits.domain_records v.retained_domain_records)) [
        | inl over ↦
            let refused = rw (over, retained) at h in let impossible : ⊥ = cc in absurd impossible
        | inr room ↦
            let (sum_of, edge_room, left) =
              retained_edge_count_cases edges v sum (rw (room, retained) at h) in
            record {
              decision_room = λ e. let impossible : ⊥ = cc in absurd impossible;
              domain_room = λ e. ground arith;
              sum_of = sum_of;
              edge_room = edge_room;
              ids_left = left;
            }
      ]

  -- The record that `push_record` appends.
  abbrev pub next_record :
      ℕ → Correlation → TelemetryObservation → TelemetrySession B → TelemetryRecord
  next_record timestamp correlation observation v = record {
    correlation = correlation;
    observation = observation;
    id = v.next_record_id;
    timestamp = timestamp;
  }

  pub push_record-Within :
      (timestamp : ℕ) (correlation : Correlation) (observation : TelemetryObservation) (edges : ℕ)
      (v : TelemetrySession B)
      → Within v
      → Room (is_decision_observation observation) (correlation_edge_count correlation) v edges
      → Within (push_record timestamp correlation observation edges v)
  unfolding push_record
  push_record-Within timestamp correlation observation edges v i room =
      let r : TelemetryRecord = next_record timestamp correlation observation v in
      let size = length-append v.records (r ∷ []) in
      let counted = count_decisions-append v.records (r ∷ []) in
      let placed = Numbered-append 0 v.records r i.numbered (omega (arith, i.next room.ids_left)) in
      let next_of : (if v.next_record_id == u64_max then true else v.record_ids_exhausted) ≡ false
          → (if v.next_record_id == u64_max then v.next_record_id else v.next_record_id + 1)
            ≡ length (v.records ++ r ∷ []) =
        λ e. ground (arith, size, i.next room.ids_left) in
      let edges_of : edges ≡ total_edges (v.records ++ r ∷ []) =
        omega (arith, room.sum_of, i.edges, total_edges-append v.records (r ∷ [])) in
      elim (Bool-cases (is_decision_observation observation)) [
        | inl decision ↦ rw decision record {
          decisions =
              let one : count_decisions (r ∷ []) ≡ 1 = rw decision (omega arith) in
              omega (arith, i.decisions, counted, one);
          all = omega (arith, i.all, size);
          edges = edges_of;
          decision_limit = omega (arith, room.decision_room decision);
          domain_limit = i.domain_limit;
          edge_limit = room.edge_room;
          sample_limit = i.sample_limit;
          numbered = placed;
          next = next_of;
        }
        | inr domain ↦ rw domain record {
          decisions =
              let nothing : count_decisions (r ∷ []) ≡ 0 = rw domain (omega arith) in
              omega (arith, i.decisions, counted, nothing);
          all = omega (arith, i.all, size);
          edges = edges_of;
          decision_limit = i.decision_limit;
          domain_limit = omega (arith, room.domain_room domain);
          edge_limit = room.edge_room;
          sample_limit = i.sample_limit;
          numbered = placed;
          next = next_of;
        }
      ]

  -- The accounts do not depend on the other fields.
  pub touched-Within :
      (v : TelemetrySession B) (b : Option B) (last : Option ℕ) (closed : Bool)
      → Within v
      → Within (record v { builder = b; last_timestamp = last; is_finalized = closed })
  touched-Within v b last closed i = record {
    decisions = i.decisions;
    all = i.all;
    edges = i.edges;
    decision_limit = i.decision_limit;
    domain_limit = i.domain_limit;
    edge_limit = i.edge_limit;
    sample_limit = i.sample_limit;
    numbered = i.numbered;
    next = i.next;
  }

  pub touched-Room :
      (v w : TelemetrySession B) (decision : Bool) (edges sum : ℕ) (b : Option B)
      → Emitted v w
      → Room decision edges v sum
      → Room decision edges (record w { builder = b }) sum
  touched-Room v w decision edges sum b (samples, next, same, fits) room = rw same record {
    decision_room = room.decision_room;
    domain_room = room.domain_room;
    sum_of = room.sum_of;
    edge_room = room.edge_room;
    ids_left = room.ids_left;
  }
