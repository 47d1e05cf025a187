-- ===== src/SeqContext/Ids.antt =====
-- forastero/sequence.py, class SeqContext: its constructor, and the number that a context gets.
--
-- `SEQ_CTX_ID` is a list of the names that have a counter, with the next number of each. Log, clock
-- and reset are handed on, and the random generator of a context is forked by its caller.
use Prim.Native.String.{String}
use forastero.Prelude.{
  ℕ, ◌+◌, ◌≡◌, refl, sym, ap, ap₂, ◌∙◌, List, [], ◌∷◌, Bool, true, false, if◌then◌else◌, ◌=?=◌,
  string_eq, arith, Bool-cases, inl, inr,
}

abbrev pub Counters : Type 0
Counters = List (String × ℕ)

pub record Context : Type 0 where
  pub sequence : String
  pub ctx_id : ℕ
  pub locks_active : Bool

-- What `next` of the counter of a name returns.
unfoldable pub next_of : String → Counters → ℕ
next_of name [] = 0
next_of name ((key, n) ∷ counters) = if key =?= name then n else next_of name counters

-- The counters behind `next`, where a name without a counter gets one.
unfoldable pub count_on : String → Counters → Counters
count_on name [] = (name, 1) ∷ []
count_on name ((key, n) ∷ counters) =
    let rest = count_on name counters in
    if key =?= name then (key, n + 1) ∷ counters else (key, n) ∷ rest

-- The constructor.
unfoldable pub new_context : String → Counters → Counters × Context
new_context name counters = (
  count_on name counters,
  record { sequence = name; ctx_id = next_of name counters; locks_active = false },
)

-- The contexts of a number of invocations, in their order.
unfoldable pub invoke_all : List String → Counters → List Context
unfolding new_context
invoke_all [] counters = []
invoke_all (name ∷ names) counters =
    let (counters', ctx) = new_context name counters in ctx ∷ invoke_all names counters'

-- How often a name stands in a list of names.
abbrev pub times : String → List String → ℕ
times name [] = 0
times name (x ∷ xs) = if x =?= name then 1 + times name xs else times name xs

-- The context of each name, numbered by the invocations of that name before it.
abbrev pub numbered : List String → List String → List Context
numbered before [] = []
numbered before (name ∷ names) =
    record { sequence = name; ctx_id = times name before; locks_active = false }
    ∷ numbered (name ∷ before) names

different :
    (key name n : String) → (key =?= name) ≡ false → (key =?= n) ≡ true → (name =?= n) ≡ false
different key name n differ here = elim (Bool-cases (name =?= n)) [
  | inl same ↦
      let equal : key ≡ name =
        (string_eq.beq_iff _ _).0 here ∙ sym ((string_eq.beq_iff _ _).0 same) in
      let wrong : (key =?= name) ≡ true = (string_eq.beq_iff _ _).1 equal in cc
  | inr other ↦ other
]

next_of-count_on :
    (n name : String) (counters : Counters)
    → next_of n (count_on name counters)
      ≡ (if name =?= n then 1 + next_of n counters else next_of n counters)
unfolding next_of count_on
next_of-count_on n name [] = refl
next_of-count_on n name ((key, v) ∷ counters) = elim (Bool-cases (key =?= name)) [
  | inl same ↦
      let own : key ≡ name = (string_eq.beq_iff _ _).0 same in
      elim (Bool-cases (name =?= n)) [
        | inl here ↦
            let there : (key =?= n) ≡ true = ap (λ k. k =?= n) own ∙ here in
            rw (same, here, there) (omega arith)
        | inr other ↦
            let away : (key =?= n) ≡ false = ap (λ k. k =?= n) own ∙ other in
            rw (same, other, away) refl
      ]
  | inr differ ↦ elim (Bool-cases (key =?= n)) [
    | inl here ↦
        let away : (name =?= n) ≡ false = different key name n differ here in
        rw (differ, here, away) refl
    | inr other ↦ rw (differ, other) (next_of-count_on n name counters)
  ]
]

counters-numbered :
    (names before : List String) (counters : Counters)
    → ((n : String) → next_of n counters ≡ times n before)
    → invoke_all names counters ≡ numbered before names
unfolding invoke_all new_context
counters-numbered [] before counters h = refl
counters-numbered (name ∷ names) before counters h =
    ap₂ (λ (i : ℕ) l. record { sequence = name; ctx_id = i; locks_active = false } ∷ l) (h name)
      (counters-numbered names (name ∷ before) (count_on name counters)
        (λ n. next_of-count_on n name counters ∙ ap (λ k. if name =?= n then 1 + k else k) (h n)))

-- Over any sequence of invocations, the number of each context is the number of invocations of a
-- sequence of its name before it, so no two contexts of one name have the same number.
pub invoke_all-numbered : (names : List String) → invoke_all names [] ≡ numbered [] names
unfolding next_of
invoke_all-numbered names = counters-numbered names [] [] (λ n. refl)
