-- ===== src/Sim/EventQueue/Order.antt =====
-- The dispatch order of sim/event_queue.cpp: what `push` and `pop` do to the order of the events.
use mathlib.Core.List.{Perm}
use mathlib.Core.List.Perm
use nexus_lab.Prelude.{
  ℕ, ◌≡◌, refl, ◌+◌, ◌≢◌, ◌⊎◌, inl, inr, ◌↔◌, true, false, not, none, some, List, [], ◌∷◌, ◌==◌,
  if◌then◌else◌, length, All, All-map, contains, Distinct, arith, Bool-cases,
}
use nexus_lab.Sim.Event.{Event}
use nexus_lab.Sim.EventQueue.{
  later_event, EventQueue, insert, pop_list, pop, ids, Precedes, IsSorted,
}

-- The comparator decides the documented order.
pub later_event_iff : (a b : Event) → (later_event a b ≡ true) ↔ Precedes b a
unfolding later_event
later_event_iff a b = (λ h. ground arith, λ h. ground arith)

pub Precedes-trans : (a b c : Event) → Precedes a b → Precedes b c → Precedes a c
Precedes-trans a b c p q = ground arith

-- Two events of different IDs are ordered one way or the other.
pub Precedes-total : (a b : Event) → a.id ≢ b.id → Precedes a b ⊎ Precedes b a
Precedes-total a b h = ground arith

pub insert-All {κ} :
    (P : Event → Type κ) (e : Event) (xs : List Event) → P e → All P xs → All P (insert e xs)
unfolding insert
insert-All P e [] p ps = (p, tt)
insert-All P e (x ∷ xs) p ps = elim (Bool-cases (later_event x e)) [
  | inl h ↦ rw h (p, ps)
  | inr h ↦ rw h (ps.0, insert-All P e xs p ps.1)
]

not_later_Precedes :
    (e x : Event) (xs : List Event)
    → later_event x e ≡ false
    → contains (ids (x ∷ xs)) e.id ≡ false
    → Precedes x e
not_later_Precedes e x xs h d = ground (arith, later_event_iff x e, Precedes-total e x)

-- A sorted queue stays sorted when an event enters whose ID is not in it.
pub insert-IsSorted :
    (e : Event) (xs : List Event)
    → IsSorted xs
    → contains (ids xs) e.id ≡ false
    → IsSorted (insert e xs)
unfolding insert
insert-IsSorted e [] s d = (tt, tt)
insert-IsSorted e (x ∷ xs) s d = elim (Bool-cases (later_event x e)) [
  | inl h ↦
      let before = (later_event_iff x e).0 h in
      rw h ((before, All-map _ _ xs (λ y. Precedes-trans e x y before) s.0), s)
  | inr h ↦ rw h (
    insert-All (Precedes x) e xs (not_later_Precedes e x xs h d) s.0,
    insert-IsSorted e xs s.1 (ground arith),
  )
]

-- An event enters once, and no other is lost or copied.
pub insert-perm : (e : Event) (xs : List Event) → Perm (insert e xs) (e ∷ xs)
unfolding insert
insert-perm e [] = Perm.refl (e ∷ [])
insert-perm e (x ∷ xs) = elim (Bool-cases (later_event x e)) [
  | inl h ↦ rw h (Perm.refl (e ∷ x ∷ xs))
  | inr h ↦ rw h (Perm.trans (Perm.cons x (insert-perm e xs)) (Perm.swap e x xs))
]

pub contains-insert :
    (e : Event) (xs : List Event) (a : ℕ)
    → contains (ids (insert e xs)) a ≡ (if e.id == a then true else contains (ids xs) a)
unfolding insert
contains-insert e [] a = refl
contains-insert e (x ∷ xs) a = ground (arith, contains-insert e xs a)

pub insert-Distinct :
    (e : Event) (xs : List Event)
    → contains (ids xs) e.id ≡ false
    → Distinct (ids xs)
    → Distinct (ids (insert e xs))
unfolding insert
insert-Distinct e [] c d = (refl, tt)
insert-Distinct e (x ∷ xs) c d = ground (arith, contains-insert e xs x.id, insert-Distinct e xs)

pub length-insert : (e : Event) (xs : List Event) → length (insert e xs) ≡ length xs + 1
unfolding insert
length-insert e [] = omega arith
length-insert e (x ∷ xs) = ground (arith, length-insert e xs)

later_event_flip : (a b : Event) → a.id ≢ b.id → later_event a b ≡ not (later_event b a)
unfolding later_event
later_event_flip a b n = ground arith

later_event_trans :
    (a b c : Event) → later_event a b ≡ true → later_event b c ≡ true → later_event a c ≡ true
unfolding later_event
later_event_trans a b c p q = ground arith

-- Two insertions of events of different IDs commute, so the queue does not depend on the order of
-- the calls.
pub insert_comm :
    (a b : Event) (xs : List Event) → a.id ≢ b.id → insert a (insert b xs) ≡ insert b (insert a xs)
unfolding insert
insert_comm a b [] n = ground (arith, later_event_flip a b n)
insert_comm a b (x ∷ xs) n = ground (
  arith,
  later_event_flip a b n,
  later_event_trans x b a,
  later_event_trans x a b,
  insert_comm a b xs n,
)

pop_list-Precedes :
    (xs : List Event)
    → IsSorted xs
    → ((xs ≡ []) × (pop_list xs ≡ (none, record { events = xs })))
      ⊎ ((e : Event) × (rest : EventQueue) × (pop_list xs ≡ (some e, rest))
          × (xs ≡ e ∷ rest.events)
          × All (Precedes e) rest.events)
unfolding pop_list
pop_list-Precedes [] s = inl (refl, refl)
pop_list-Precedes (e ∷ es) s = inr (e, record { events = es }, refl, refl, s.0)

-- `pop` hands out an event that precedes every other pending one, and leaves the others.
pub pop-Precedes :
    (q : EventQueue)
    → IsSorted q.events
    → ((q.events ≡ []) × (pop q ≡ (none, q)))
      ⊎ ((e : Event) × (rest : EventQueue) × (pop q ≡ (some e, rest))
          × (q.events ≡ e ∷ rest.events)
          × All (Precedes e) rest.events)
unfolding pop
pop-Precedes q s = pop_list-Precedes q.events s
