-- ===== src/Transaction/Tabulate.antt =====
-- forastero/transaction.py, BaseTransaction.format and tabulate: the rows of a table of fields.
--
-- `decimal` and `hexadecimal` write a number; the layout of the table, by the package tabulate, is left
-- out.
use forastero.Prelude.{
  ℕ, ◌≡◌, refl, ap, List, [], ◌∷◌, ◌++◌, Bool, true, false, ◌&&◌, ◌||◌, not, if◌then◌else◌, ◌=?=◌,
  text_eq, text_beq_iff, Text, text, All, Bool-cases, inl, inr,
}

-- A value of a field, by the tests of `format`; `str` of a value that is no number goes with it.
pub data FieldValue : Type 0 where
  enumerated : Text → ℕ → Text → FieldValue
  integer : ℕ → FieldValue
  convertible : ℕ → Text → FieldValue
  printable : Text → FieldValue

pub record Field : Type 0 where
  pub name : Text
  pub compare : Bool
  pub value : FieldValue

module _ (decimal hexadecimal : ℕ → Text) where
  unfoldable pub str : FieldValue → Text
  str (enumerated name n shown) = shown
  str (integer n) = decimal n
  str (convertible n shown) = shown
  str (printable shown) = shown

  unfoldable pub format_value : FieldValue → Text
  format_value (enumerated name n shown) = name ++ (text " (" ++ (decimal n ++ text ")"))
  format_value (integer n) = text "0x" ++ hexadecimal n
  format_value (convertible n shown) =
      text "0x" ++ (hexadecimal n ++ (text "\n(" ++ (shown ++ text ")")))
  format_value (printable shown) = shown

  unfoldable pub format : Text → FieldValue → Text
  format field value =
      if field =?= text "timestamp" then str value ++ text " ns" else format_value value

  -- `field.name in ("_f_event", "_c_event")`.
  unfoldable pub is_event : Text → Bool
  is_event name = name =?= text "_f_event" || name =?= text "_c_event"

  -- `["", "!!!"][field.compare and (a_val != b_val)]`.
  unfoldable pub flag : Bool → Text → Text → Text
  flag compare a_val b_val = if compare && not (a_val =?= b_val) then text "!!!" else []

  abbrev yes_or_no : Bool → Text
  yes_or_no true = text "yes"
  yes_or_no false = text "no"

  unfoldable pub headers : Bool → List Text
  headers false = text "Field" ∷ text "Data" ∷ []
  headers true =
      text "Field" ∷ text "Captured" ∷ text "Expected" ∷ text "Compared?" ∷ text "Match?" ∷ []

  -- The rows of `tabulate()`, and of `tabulate(other)`, whose fields have the same names.
  unfoldable pub rows : List Field → List (List Text)
  rows [] = []
  rows (f ∷ fields) =
      let rest = rows fields in
      if is_event f.name then rest else (f.name ∷ format f.name f.value ∷ []) ∷ rest

  abbrev pub compared_row : Field → FieldValue → List Text
  compared_row f other =
      f.name
      ∷ format f.name f.value
      ∷ format f.name other
      ∷ yes_or_no f.compare
      ∷ flag f.compare (format f.name f.value) (format f.name other)
      ∷ []

  unfoldable pub compared_rows : List Field → List FieldValue → List (List Text)
  compared_rows [] others = []
  compared_rows (f ∷ fields) [] = []
  compared_rows (f ∷ fields) (other ∷ others) =
      let rest = compared_rows fields others in
      if is_event f.name then rest else compared_row f other ∷ rest

  -- The compared fields have the same values, as `==` of the dataclass asks.
  abbrev pub Agree : List Field → List FieldValue → Type 0
  Agree [] others = Unit
  Agree (f ∷ fields) [] = Unit
  Agree (f ∷ fields) (other ∷ others) = (f.compare ≡ true → f.value ≡ other) × Agree fields others

  abbrev pub Unflagged : List Text → Type 0
  Unflagged row = (a b c d : Text) → row ≡ a ∷ b ∷ c ∷ d ∷ text "!!!" ∷ [] → ⊥

  flag-equal : (compare : Bool) (a b : Text) → (compare ≡ true → a ≡ b) → flag compare a b ≡ []
  unfolding flag
  flag-equal false a b h = refl
  flag-equal true a b h = rw ((text_beq_iff a b).1 (h refl)) refl

  -- A table of two transactions that compare equal has no row that is flagged.
  pub compared_rows-Unflagged :
      (fields : List Field) (others : List FieldValue)
      → Agree fields others
      → All Unflagged (compared_rows fields others)
  unfolding compared_rows
  compared_rows-Unflagged [] others agree = tt
  compared_rows-Unflagged (f ∷ fields) [] agree = tt
  compared_rows-Unflagged (f ∷ fields) (other ∷ others) (same, agree) =
      elim (Bool-cases (is_event f.name)) [
        | inl event ↦ rw event (compared_rows-Unflagged fields others agree)
        | inr shown ↦
            let blank : flag f.compare (format f.name f.value) (format f.name other) ≡ [] =
              flag-equal f.compare _ _ (λ c. ap (format f.name) (same c)) in
            rw (shown, blank) ((λ a b c d e. cc), compared_rows-Unflagged fields others agree)
      ]
