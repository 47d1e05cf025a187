-- ===== src/Event.antt =====
-- forastero/event.py: publishing events and subscribing to them.
--
-- `E` is the type of a component's event names and `H` that of its handlers. What the handlers do
-- to the emitter while an event is published is an argument of `publish`; the handlers that are
-- called and the waiters that are woken are its result. A handler that returns a coroutine has it
-- started by the call, which is not told apart. A wait is the handle of its DataEvent.
pub mod Delivery
mod Examples
use forastero.Prelude.{
  ℕ, List, [], ◌∷◌, ◌++◌, Option, none, some, Bool, true, false, map, if◌then◌else◌, Eq, ◌=?=◌,
}
use forastero.Queue.{EventId}

-- `"*"`, or an enumerated event.
pub data Key (E : Type 0) : Type 0 where
  star : Key E
  on : E → Key E

-- What is passed for an event: a member of an Enum, or anything else.
pub data Argument (E : Type 0) : Type 0 where
  enumerated : E → Argument E
  other : Argument E

module _ {E : Type 0} ⦃e : Eq E⦄ where
  unfoldable pub key_eq : Key E → Key E → Bool
  key_eq star star = true
  key_eq (on a) (on b) = a =?= b
  key_eq _ _ = false

  -- `table[key]` of a `defaultdict(list)`.
  unfoldable pub at : {A : Type 0} → Key E → List (Key E × A) → List A
  unfolding key_eq
  at k [] = []
  at k ((j, x) ∷ table) = let rest = at k table in if key_eq j k then x ∷ rest else rest

  -- `table[key].clear()`.
  unfoldable pub clear : {A : Type 0} → Key E → List (Key E × A) → List (Key E × A)
  unfolding key_eq
  clear k [] = []
  clear k ((j, x) ∷ table) = let rest = clear k table in if key_eq j k then rest else (j, x) ∷ rest

-- The lists of all keys in one table, each entry under its key, in the order of appending.
pub record EventEmitter (E H : Type 0) : Type 0 where
  pub handlers : List (Key E × H)
  pub waiting : List (Key E × EventId)

-- DataEvent.set: the event is set, and its payload is the published object.
pub record Woken (O : Type 0) : Type 0 where
  pub evt : EventId
  pub payload : O

pub record Publication (E H O : Type 0) : Type 0 where
  pub called : List (H × E × O)
  pub woken : List (Woken O)

module _ {E H : Type 0} where
  unfoldable pub new : EventEmitter E H
  new = record { handlers = []; waiting = [] }

  -- `none` stands for the TypeError.
  unfoldable pub subscribe : Argument E → H → EventEmitter E H → Option (EventEmitter E H)
  subscribe other h m = none
  subscribe (enumerated event) h m = some (record m { handlers = m.handlers ++ (on event, h) ∷ [] })

  unfoldable pub subscribe_all : H → EventEmitter E H → EventEmitter E H
  subscribe_all h m = record m { handlers = m.handlers ++ (star, h) ∷ [] }

  -- `_get_wait_event`, and `wait_for` up to its await.
  unfoldable pub get_wait_event : E → EventId → EventEmitter E H → EventEmitter E H
  get_wait_event event evt m = record m { waiting = m.waiting ++ (on event, evt) ∷ [] }

module _ {E H : Type 0} ⦃e : Eq E⦄ where
  unfoldable pub unsubscribe_all :
      Option (Argument E) → EventEmitter E H → Option (EventEmitter E H)
  unfolding clear
  unsubscribe_all none m = some (record { handlers = []; waiting = [] })
  unsubscribe_all (some other) m = none
  unsubscribe_all (some (enumerated event)) m =
      some (record { handlers = clear (on event) m.handlers; waiting = clear (on event) m.waiting })

  unfoldable pub publish :
      {O : Type 0}
      → (EventEmitter E H → EventEmitter E H)
      → E
      → O
      → EventEmitter E H
      → EventEmitter E H × Publication E H O
  unfolding at clear
  publish during event obj m =
      let m' = during m in
      (
        record m' { waiting = clear (on event) m'.waiting },
        record {
          called = map (λ h. (h, event, obj)) (at star m.handlers ++ at (on event) m.handlers);
          woken = map (λ evt. record { evt = evt; payload = obj }) (at (on event) m'.waiting);
        },
      )
