-- ===== src/Component.antt =====
-- forastero/component.py, class Component: what drivers and monitors have in common, and the loop of
-- `idle`.
--
-- A generator of random numbers is known by how many draws were taken from it, so the seed of a
-- component is the index of the draw, or the fixed 0. The asyncio lock is a flag: a task that finds
-- it taken waits.
pub mod Idle
mod Examples
use forastero.Prelude.{
  ℕ, zero, suc, ◌+◌, Option, none, some, Bool, true, false, if◌then◌else◌, Text, [], ◌∷◌, List,
}

pub data Seed : Type 0 where
  zero_seed : Seed
  draw : ℕ → Seed

pub record Component : Type 0 where
  pub name : Text
  pub blocking : Bool
  pub seed : Seed
  pub locked : Bool
  pub is_ready : Bool

-- `random.random() if random else 0`, with the next draw of the generator.
unfoldable pub first_seed : Option ℕ → Seed
first_seed none = zero_seed
first_seed (some next) = draw next

-- `name or type(self).__name__`: an empty name counts as none.
unfoldable pub name_or : Option Text → Text → Text
name_or none class_name = class_name
name_or (some []) class_name = class_name
name_or (some (c ∷ name)) class_name = c ∷ name

unfoldable pub new : Option ℕ → Option Text → Text → Bool → Component
new random name class_name blocking = record {
  name = name_or name class_name;
  blocking = blocking;
  seed = first_seed random;
  locked = false;
  is_ready = false;
}

-- `seed(random)`, with the next draw of the generator.
unfoldable pub seed_from : ℕ → Component → Component
seed_from next c = record c { seed = draw next }

-- `none` where the caller waits for the lock.
unfoldable pub lock : Component → Option Component
lock c = if c.locked then none else some (record c { locked = true })

-- `none` stands for the RuntimeError.
unfoldable pub release : Component → Option Component
release c = if c.locked then some (record c { locked = false }) else none

unfoldable pub busy : Component → Bool
busy c = c.locked

-- `idle`, where `busy_at` gives the property `busy` behind each edge of the clock: the edge at which
-- it returns, or `none` when the fuel has run out.
unfoldable pub idle : ℕ → (ℕ → Bool) → ℕ → Option ℕ
idle zero busy_at edge = none
idle (suc fuel) busy_at edge =
    let rest = idle fuel busy_at (edge + 1) in if busy_at edge then rest else some edge
