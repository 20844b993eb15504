-- ===== src/Devices/Keyboard.antt =====
-- The keyboard of emulator/src/keyboard.cc: a bounded queue of events and a counter of those dropped.
pub mod History
use anc.Base.{ℕ, ◌+◌, List, [], ◌∷◌, ◌++◌, ◌==◌, if◌then◌else◌, length}

pub record Keyboard : Type 0 where
  pub events : List ℕ
  pub dropped : ℕ

abbrev pub capacity : ℕ
capacity = 64

-- An event of 0 is none; a full queue drops the event, and the counter stops at its largest value.
unfoldable pub input : ℕ → Keyboard → Keyboard
input value k =
    if value == 0
    then k
    else if length k.events == capacity
    then (if k.dropped == 0xffff then k else record k { dropped = k.dropped + 1 })
    else record k { events = k.events ++ (value ∷ []) }

abbrev front : List ℕ → ℕ
front [] = 0
front (v ∷ rest) = v

abbrev pop_front : List ℕ → List ℕ
pop_front [] = []
pop_front (v ∷ rest) = rest

unfoldable pub pending : Keyboard → ℕ
pending k = front k.events

unfoldable pub consume : Keyboard → Keyboard
consume k = record k { events = pop_front k.events }

-- A write of 0 clears the queue.
unfoldable pub cpu_write : ℕ → Keyboard → Keyboard
cpu_write value k = if value == 0 then record { events = []; dropped = 0 } else k

-- A read polls the next event (0), the length of the queue (1) or the events dropped (2).
unfoldable pub cpu_read : ℕ → Keyboard → ℕ × Keyboard
unfolding consume
cpu_read request k =
    if request == 1
    then (length k.events, k)
    else if request == 2
    then (k.dropped, k)
    else if request == 0
    then (front k.events, consume k)
    else (0, k)
