-- ===== src/Channel/Window.antt =====
-- forastero/scoreboard.py, the search of `Channel._dequeue` over its matching window.
use forastero.Prelude.{
  ℕ, zero, suc, ◌+◌, ◌<◌, ◌≡◌, refl, List, [], ◌∷◌, some, Bool, true, false, inl, inr, ltb, take,
  get_elem?, any, arith, Bool-cases, Eq,
}
use forastero.Transaction.{Transaction, tx_eq}
use forastero.Channel.{Scan, hit, miss, overstayed, Residence, scan, bump}

module _ {F : Type 0} ⦃e : Eq F⦄ where
  abbrev pub matches : Transaction F → Transaction F → Bool
  matches mon ref = tx_eq ref mon

  -- What the result of a scan from index `idx` on says of the entries that it was given.
  abbrev pub Scanned : Transaction F → ℕ → List (Transaction F) → Scan → Type 0
  Scanned mon idx refs (hit j _) =
      (k : ℕ) × (ref : Transaction F) × (j ≡ idx + k)
      × (get_elem? refs k ≡ some ref)
      × (tx_eq ref mon ≡ true)
      × (any (matches mon) (take k refs) ≡ false)
  Scanned mon idx refs (miss _) = any (matches mon) refs ≡ false
  Scanned mon idx refs (overstayed _) = Unit {0}

  Scanned-cons :
      (mon ref : Transaction F) (idx : ℕ) (refs : List (Transaction F)) (r : Scan)
      → tx_eq ref mon ≡ false
      → Scanned mon (suc idx) refs r
      → Scanned mon idx (ref ∷ refs) r
  Scanned-cons mon ref idx refs (hit j _) h (k, found, at, there, same, before) =
      (suc k, found, omega arith, there, same, ground arith)
  Scanned-cons mon ref idx refs (miss _) h s = ground arith
  Scanned-cons mon ref idx refs (overstayed _) h s = tt

  -- A hit is the first entry of the window that equals the captured transaction.
  pub scan-Scanned :
      (window : ℕ) (mon : Transaction F) (idx : ℕ) (refs : List (Transaction F)) (res : Residence)
      → Scanned mon idx refs (scan window mon idx refs res)
  unfolding scan
  scan-Scanned window mon idx [] res = refl
  scan-Scanned window mon idx (ref ∷ refs) res =
      elim (Bool-cases (ltb window (bump res ref.ident ref.ident))) [
        | inl late ↦ rw late tt
        | inr ok ↦ elim (Bool-cases (tx_eq ref mon)) [
          | inl same ↦ rw (ok, same) (0, ref, omega arith, refl, same, refl)
          | inr other ↦
              rw (ok, other)
                (Scanned-cons mon ref idx refs _ other
                  (scan-Scanned window mon (suc idx) refs (bump res ref.ident)))
        ]
      ]

module _ {ℓ} {A : Type ℓ} where
  pub get_elem?-take :
      (n k : ℕ) (xs : List A) {x : A}
      → get_elem? (take n xs) k ≡ some x
      → (k < n) × (get_elem? xs k ≡ some x)
  get_elem?-take zero k xs h = ground arith
  get_elem?-take (suc n) k [] h = ground arith
  get_elem?-take (suc n) zero (x ∷ xs) h = (omega arith, h)
  get_elem?-take (suc n) (suc k) (x ∷ xs) h =
      let (below, there) = get_elem?-take n k xs h in (omega arith, there)

  pub take-take : (n k : ℕ) (xs : List A) → k < n → take k (take n xs) ≡ take k xs
  take-take n zero xs h = refl
  take-take zero (suc k) xs h = elim h [ ]
  take-take (suc n) (suc k) [] h = refl
  take-take (suc n) (suc k) (x ∷ xs) h = rw (take-take n k xs (omega arith))
