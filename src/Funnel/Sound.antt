-- ===== src/Funnel/Sound.antt =====
-- forastero/scoreboard.py, class FunnelChannel: what a segment of its loop keeps of queues that the
-- model has sorted by origin.
use Prim.Native.String.{String}
use forastero.Prelude.{
  ℕ, ◌+◌, ◌≡◌, inl, inr, refl, sym, ◌∙◌, subst, List, [], ◌∷◌, ◌++◌, true, not, any, Eq, string_eq,
  arith, length,
}
use forastero.Transaction.{Transaction, tx_eq}
use forastero.Channel
use forastero.Channel.{Config}
use forastero.Funnel
use forastero.Funnel.{Funnel, push_reference, push_at, advance}
use forastero.Funnel.Moves.{View, view, contents, Move, stay, pair, Taken, Chosen}
use forastero.Funnel.Sources.{named, named-middle, Follows, Known, Follows-taken, Follows-matches}

module _ {F : Type 0} ⦃e : Eq F⦄ (origin : F → String) (planned : String → List (Transaction F))
    (coming : List (Transaction F)) (total : ℕ) where
  -- What holds of a view throughout: nothing was paired wrongly, and nothing is lost.
  pub record Sound (v : View (Transaction F)) : Type 0 where
    pub follows : Follows origin planned (v.captured ++ coming) v.queues
    pub known : Known origin (v.captured ++ coming) v.queues
    pub right : v.mismatched ≡ 0
    pub counted : v.matched + length (v.captured ++ coming) ≡ total

  pub Known-queues :
      (ts : List (Transaction F)) (queues queues' : List (String × List (Transaction F)))
      → ((name : String) → named name queues' ≡ named name queues)
      → Known origin ts queues
      → Known origin ts queues'
  Known-queues [] queues queues' same k = k
  Known-queues (t ∷ ts) queues queues' same (here, k) =
      (same (origin t.fields) ∙ here, Known-queues ts queues queues' same k)

  pair-Sound :
      (mon ref : Transaction F) (v w : View (Transaction F)) (t : Taken v.queues w.queues ref)
      → v.captured ≡ mon ∷ w.captured
      → w.matched ≡ v.matched + Channel.Moves.as_count (tx_eq mon ref)
      → w.mismatched ≡ v.mismatched + Channel.Moves.as_count (not (tx_eq mon ref))
      → Chosen mon ref v.queues w.queues t
      → Sound v
      → Sound w
  unfolding tx_eq
  pair-Sound mon ref v w t front matched mismatched (inl (same, first)) s =
      let equal : mon.fields ≡ ref.fields = sym ((e.beq_iff _ _).0 same) in
      let matches : tx_eq mon ref ≡ true = (e.beq_iff _ _).1 equal in
      let follows : Follows origin planned (mon ∷ w.captured ++ coming)
          (t.before ++ (t.name, ref ∷ t.rest) ∷ t.after) =
        (rw (front, t.old) at s.follows) in
      let known : Known origin (mon ∷ w.captured ++ coming) v.queues = (rw front at s.known) in
      let counted : v.matched + length (mon ∷ w.captured ++ coming) ≡ total =
        (rw front at s.counted) in
      record {
        follows =
            rw t.now
              (Follows-taken origin planned mon ref _ t.name t.rest t.before t.after equal
                follows).0;
        known =
            Known-queues _ v.queues w.queues
              (λ name.
                rw (t.old, t.now) (named-middle name t.name t.rest (ref ∷ t.rest) t.before t.after))
              known.1;
        right = mismatched ∙ rw (matches, s.right) refl;
        counted = rw matched (rw matches (omega (arith, counted)));
      }
  pair-Sound mon ref v w t front matched mismatched (inr (last, none_match, full)) s =
      let f : Follows origin planned (mon ∷ (w.captured ++ coming)) v.queues =
        (rw front at s.follows) in
      let k : Known origin (mon ∷ (w.captured ++ coming)) v.queues = (rw front at s.known) in
      let some_match : any (Funnel.Moves.head_matches mon) v.queues ≡ true =
        Follows-matches origin planned mon (w.captured ++ coming) v.queues f k.0 full in
      cc

  pub move-Sound : (v w : View (Transaction F)) → Move v w → Sound v → Sound w
  move-Sound v w (stay same) s = subst Sound (sym same) s
  move-Sound v w (pair mon ref t front told matched mismatched chosen) s =
      pair-Sound mon ref v w t front matched mismatched chosen s
