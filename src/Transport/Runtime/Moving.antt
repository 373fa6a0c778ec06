-- ===== src/Transport/Runtime/Moving.antt =====
-- The states of a chunk in transit (transport/runtime.cpp), and rules for what a handler may do to them.
use nexus_lab.Prelude.{
  ℕ, ◌≡◌, ◌≢◌, ◌⊎◌, refl, ap, ◌∙◌, inl, inr, Bool, true, false, Option, some, List, [], ◌∷◌, arith,
  ◌==◌, ==_iff, if◌then◌else◌, Bool-cases, Option-cases,
}
use nexus_lab.Prelude.Except.{Error, Result, ok, err}
use nexus_lab.Prelude.State.{M, and_then, when, require}
use nexus_lab.Topology.Entities.{DirectedLinkId}
use nexus_lab.Transport.Runtime.{
  TransportRuntime, ChunkRecord, ChunkTransitState, delivered, dropped_buffer_full,
  dropped_link_down, find_entry, set_entry, find_chunk,
}
use nexus_lab.Transport.Runtime.Progress.{require_chunk}
use nexus_lab.Transport.Runtime.Keeping.{Kept}

-- What a handler may do to the state of a chunk, by its ID and route. What it does in two writes it
-- may do in one.
pub record Rule : Type 1 where
  pub Allows : ℕ → List DirectedLinkId → ChunkTransitState → ChunkTransitState → Type 0
  pub compose :
      (id : ℕ) (route : List DirectedLinkId) (s t u : ChunkTransitState)
      → Allows id route s t
      → Allows id route t u
      → Allows id route s u

-- The states that `record_terminal` counts.
abbrev pub is_final : ChunkTransitState → Bool
is_final delivered = true
is_final dropped_buffer_full = true
is_final dropped_link_down = true
is_final _ = false

module _ (rule : Rule) where
  -- A chunk keeps its route, and its state or goes where the rule allows; in a final state it keeps
  -- its whole record.
  pub record Follows (id : ℕ) (old new : ChunkRecord) : Type 0 where
    pub route : new.route ≡ old.route
    pub moves : (old.state ≡ new.state) ⊎ rule.Allows id old.route old.state new.state
    pub final : is_final old.state ≡ true → new ≡ old

  -- Every chunk of `c` is a chunk of `d`, in a record that follows its record.
  pub record Moved (c d : List (ℕ × ChunkRecord)) : Type 0 where
    pub moves :
        (id : ℕ) (old : ChunkRecord)
        → find_chunk id c ≡ some old
        → (new : ChunkRecord) × (find_chunk id d ≡ some new) × Follows id old new

  -- After the operation the chunks of `c` have moved.
  pub record Leads {G S A : Type 0} (c : List (ℕ × ChunkRecord))
      (x : Result A × TransportRuntime G S) : Type 0 where
    pub moved : Moved c x.1.chunks

module _ {rule : Rule} where
  Follows-refl : (id : ℕ) (entry : ChunkRecord) → Follows rule id entry entry
  Follows-refl id entry = record { route = refl; moves = inl refl; final = λ h. refl }

  Follows-trans :
      {id : ℕ} {a b c : ChunkRecord}
      → Follows rule id a b
      → Follows rule id b c
      → Follows rule id a c
  Follows-trans {id} {a} {b} {c} p q = record {
    route = q.route ∙ p.route;
    moves = elim p.moves [
      | inl stays ↦ elim q.moves [
        | inl same ↦ inl (stays ∙ same)
        | inr second ↦ inr (rw stays (rw (← p.route) second))
      ]
      | inr first ↦ elim q.moves [
        | inl same ↦ inr (rw (← same) first)
        | inr second ↦
            inr (rule.compose id a.route a.state b.state c.state first (rw (← p.route) second))
      ]
    ];
    final = λ h.
        let whole = p.final h in
        q.final (ap (λ (e : ChunkRecord). is_final e.state) whole ∙ h) ∙ whole;
  }

  -- A write to a chunk whose state is not final.
  pub Follows-moves :
      {id : ℕ} {old new : ChunkRecord}
      → new.route ≡ old.route
      → (old.state ≡ new.state) ⊎ rule.Allows id old.route old.state new.state
      → is_final old.state ≡ false
      → Follows rule id old new
  Follows-moves {id} {old} {new} same moved going = record {
    route = same;
    moves = moved;
    final = λ h. let impossible : ⊥ = cc in absurd impossible;
  }

  pub Moved-refl : (c : List (ℕ × ChunkRecord)) → Moved rule c c
  Moved-refl c = record { moves = λ id old h. (old, h, Follows-refl id old) }

  pub Moved-trans :
      {c d e : List (ℕ × ChunkRecord)} → Moved rule c d → Moved rule d e → Moved rule c e
  Moved-trans p q = record {
    moves = λ id old h.
        let (mid, there, first) = p.moves id old h in
        let (new, here, second) = q.moves id mid there in (new, here, Follows-trans first second);
  }

abbrev pub set_at : ℕ → ChunkRecord → List (ℕ × ChunkRecord) → List (ℕ × ChunkRecord)
set_at id entry c = set_entry (λ (a b : ℕ). a == b) id entry c

pub find_chunk_set :
    (id : ℕ) (old new : ChunkRecord) (c : List (ℕ × ChunkRecord))
    → find_chunk id c ≡ some old
    → find_chunk id (set_at id new c) ≡ some new
unfolding find_entry set_entry
find_chunk_set id old new [] h = let impossible : ⊥ = cc in absurd impossible
find_chunk_set id old new ((other, entry) ∷ rest) h = elim (Bool-cases (other == id)) [
  | inl here ↦ rw (here, here) refl
  | inr there ↦ rw (there, there) (find_chunk_set id old new rest (rw there at h))
]

find_chunk_other :
    (id other : ℕ) (new : ChunkRecord) (c : List (ℕ × ChunkRecord))
    → id ≢ other
    → find_chunk other (set_at id new c) ≡ find_chunk other c
unfolding find_entry set_entry
find_chunk_other id other new [] differ = refl
find_chunk_other id other new ((key, entry) ∷ rest) differ = elim (Bool-cases (key == id)) [
  | inl here ↦
      let same = (==_iff key id).0 here in
      let apart : (key == other) ≡ false = ground arith in rw (here, apart) refl
  | inr there ↦ rw there (
      ap (λ (o : Option ChunkRecord). if key == other then some entry else o)
        (find_chunk_other id other new rest differ))
]

-- A write to the chunk of `id`.
pub set_chunk-Moved :
    {rule : Rule} (id : ℕ) (old new : ChunkRecord) (c : List (ℕ × ChunkRecord))
    → find_chunk id c ≡ some old
    → Follows rule id old new
    → Moved rule c (set_at id new c)
set_chunk-Moved id old new c h follows = record {
  moves = λ other before there. elim (Bool-cases (id == other)) [
    | inl here ↦
        let same = (==_iff id other).0 here in
        let whole : old ≡ before = cc in
        (new, rw (← same) (find_chunk_set id old new c h), rw (← whole, ← same) follows)
    | inr apart ↦
        let differ : id ≢ other = ground arith in
        (before, find_chunk_other id other new c differ ∙ there, Follows-refl other before)
  ];
}

module _ {rule : Rule} {G S : Type 0} {c : List (ℕ × ChunkRecord)} where
  pub still : {A : Type 0} {x : Result A × TransportRuntime G S} → Kept c x → Leads rule c x
  still {x} k = record { moved = rw k.chunks (Moved-refl c) }

  pub after_still :
      {A B : Type 0} {x : Result A × TransportRuntime G S} {f : A → M (TransportRuntime G S) B}
      → Kept c x
      → ((a : A) (t : TransportRuntime G S) → t.chunks ≡ c → Leads rule c (f a t))
      → Leads rule c (and_then x f)
  after_still {x = (ok a, t)} k rest = rest a t k.chunks
  after_still {x = (err e, t)} k rest = record { moved = rw k.chunks (Moved-refl c) }

  pub after_move :
      {A B : Type 0} {x : Result A × TransportRuntime G S} {f : A → M (TransportRuntime G S) B}
      → Leads rule c x
      → ((a : A) (t : TransportRuntime G S) → Leads rule t.chunks (f a t))
      → Leads rule c (and_then x f)
  after_move {x = (ok a, t)} m rest = record { moved = Moved-trans m.moved (rest a t).moved }
  after_move {x = (err e, t)} m rest = record { moved = m.moved }

  -- What comes behind a write to the chunk of `id`.
  pub after_set :
      {A : Type 0} (id : ℕ) (old new : ChunkRecord) {x : Result A × TransportRuntime G S}
      → find_chunk id c ≡ some old
      → Follows rule id old new
      → Leads rule (set_at id new c) x
      → Leads rule c x
  after_set id old new found follows rest = record {
    moved = Moved-trans (set_chunk-Moved id old new c found follows) rest.moved;
  }

  pub after_require :
      {B : Type 0} (b : Bool) (e : Error) (f : Unit {0} → M (TransportRuntime G S) B)
      (t : TransportRuntime G S)
      → t.chunks ≡ c
      → (b ≡ true → Leads rule c (f tt t))
      → Leads rule c (and_then (require b e t) f)
  after_require true e f t h rest = rest refl
  after_require false e f t h rest = record { moved = rw h (Moved-refl c) }

  pub after_answer :
      {A B : Type 0} (r : Result A) (f : A → M (TransportRuntime G S) B) (t : TransportRuntime G S)
      → t.chunks ≡ c
      → ((a : A) → r ≡ ok a → Leads rule c (f a t))
      → Leads rule c (and_then (r, t) f)
  after_answer (ok a) f t h rest = rest a refl
  after_answer (err e) f t h rest = record { moved = rw h (Moved-refl c) }

  pub after_require_chunk :
      {B : Type 0} (id : ℕ) (f : ChunkRecord → M (TransportRuntime G S) B)
      (t : TransportRuntime G S)
      → t.chunks ≡ c
      → ((entry : ChunkRecord) → find_chunk id c ≡ some entry → Leads rule c (f entry t))
      → Leads rule c (and_then (require_chunk id t) f)
  unfolding require_chunk
  after_require_chunk id f t h rest = elim (Option-cases (find_chunk id t.chunks)) [
    | inl lost ↦ rw lost (record { moved = rw h (Moved-refl c) })
    | inr (entry, found) ↦ rw found (rest entry (rw (← h) found))
  ]

  pub when-Leads :
      (b : Bool) (m : M (TransportRuntime G S) (Unit {0})) (t : TransportRuntime G S)
      → t.chunks ≡ c
      → (b ≡ true → Leads rule c (m t))
      → Leads rule c (when b m t)
  when-Leads true m t h k = k refl
  when-Leads false m t h k = record { moved = rw h (Moved-refl c) }
