-- ===== src/Sim/EventQueue.antt =====
-- sim/event_queue.cpp: the pending events, the next one first. `std::priority_queue` is the list of
-- its elements in the order in which it hands them out; `LaterEvent` alone fixes that order.
pub mod Order
use nexus_lab.Prelude.{
  ℕ, ◌<◌, ◌≡◌, ◌⊎◌, Bool, true, false, not, Option, none, some, List, [], ◌∷◌, ltb, ◌==◌,
  if◌then◌else◌, length, map, All,
}
use nexus_lab.Sim.Event.{Event, EventPriority, priority_value}

-- `LaterEvent::operator()`
unfoldable pub later_event : Event → Event → Bool
later_event left right =
    if not (left.timestamp == right.timestamp)
    then ltb right.timestamp left.timestamp
    else if not (priority_value left.priority == priority_value right.priority)
    then ltb (priority_value right.priority) (priority_value left.priority)
    else ltb right.id left.id

pub record EventQueue : Type 0 where
  pub events : List Event

unfoldable pub empty_queue : EventQueue
empty_queue = record { events = [] }

unfoldable pub insert : Event → List Event → List Event
insert e [] = e ∷ []
insert e (x ∷ xs) = if later_event x e then e ∷ x ∷ xs else x ∷ insert e xs

unfoldable pub push : Event → EventQueue → EventQueue
unfolding insert
push e q = record { events = insert e q.events }

unfoldable pub pop_list : List Event → Option Event × EventQueue
pop_list [] = (none, record { events = [] })
pop_list (e ∷ es) = (some e, record { events = es })

unfoldable pub pop : EventQueue → Option Event × EventQueue
unfolding pop_list
pop q = pop_list q.events

unfoldable pub size : EventQueue → ℕ
size q = length q.events

abbrev pub ids : List Event → List ℕ
ids = map (λ (e : Event). e.id)

-- `a` is dispatched before `b`: it is earlier, or of more urgent priority at the same time, or of a
-- lower ID at the same time and priority.
abbrev pub Precedes : Event → Event → Type 0
Precedes a b =
    (a.timestamp < b.timestamp)
    ⊎ ((a.timestamp ≡ b.timestamp)
        × ((priority_value a.priority < priority_value b.priority)
            ⊎ ((priority_value a.priority ≡ priority_value b.priority) × (a.id < b.id))))

-- Every event precedes the later ones of the list.
abbrev pub IsSorted : List Event → Type 0
IsSorted [] = Unit
IsSorted (x ∷ xs) = All (Precedes x) xs × IsSorted xs
