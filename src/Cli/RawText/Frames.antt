-- ===== src/Cli/RawText/Frames.antt =====
-- `RawText::feed` of keepty/src/main.rs on output that comes in frames: their cut does not matter.
use keepty.Base.{
  ℕ, ◌≡◌, refl, ap, sym, ◌∙◌, Bool, true, false, ◌||◌, List, [], ◌∷◌, ◌++◌, Option, none, some,
  length,
}
use keepty.Base.Text.{ends_with}
use keepty.Cli.RawText.{RawText, fresh, feed, advance, trim}

-- A result beside one that was there.
abbrev pub also : Bool → Option (RawText × Bool) → Option (RawText × Bool)
also matched none = none
also matched (some (r, found)) = some (r, matched || found)

also_both : (m e : Bool) (o : Option (RawText × Bool)) → also m (also e o) ≡ also (m || e) o
also_both m e none = refl
also_both true e (some (r, found)) = refl
also_both false e (some (r, found)) = refl

-- What was found before does not change the search.
feed-also :
    (needle bytes : List ℕ) (r : RawText) (m : Bool)
    → feed needle bytes r m ≡ also m (feed needle bytes r false)
unfolding feed
feed-also needle [] r true = refl
feed-also needle [] r false = refl
feed-also needle (b ∷ bs) r m = by_byte (advance b r) (feed-also needle bs)
  where
    by_byte :
        (o : Option RawText)
        → ((r : RawText) (m : Bool) → feed needle bs r m ≡ also m (feed needle bs r false))
        → (elim o as (λ x. Option (RawText × Bool)) [
          | none ↦ none
          | some q ↦ feed needle bs (trim (length needle) q) (m || ends_with needle q.tail)
        ])
          ≡ also m (elim o as (λ x. Option (RawText × Bool)) [
            | none ↦ none
            | some q ↦ feed needle bs (trim (length needle) q) (false || ends_with needle q.tail)
          ])
    by_byte none ih = refl
    by_byte (some q) ih =
        let t = trim (length needle) q in
        let e = ends_with needle q.tail in
        ih t (m || e) ∙ sym (also_both m e (feed needle bs t false)) ∙ ap (also m) (sym (ih t e))

abbrev then_feed : List ℕ → List ℕ → Option (RawText × Bool) → Option (RawText × Bool)
then_feed needle ys none = none
then_feed needle ys (some (r, m)) = feed needle ys r m

-- The cut of the output into frames does not matter to the search.
pub feed-append :
    (needle xs ys : List ℕ) (r : RawText) (m : Bool)
    → feed needle (xs ++ ys) r m ≡ then_feed needle ys (feed needle xs r m)
unfolding feed
feed-append needle [] ys r m = refl
feed-append needle (b ∷ xs) ys r m = by_byte (advance b r) (feed-append needle xs ys)
  where
    by_byte :
        (o : Option RawText)
        → ((r : RawText) (m : Bool)
            → feed needle (xs ++ ys) r m ≡ then_feed needle ys (feed needle xs r m))
        → (elim o as (λ x. Option (RawText × Bool)) [
          | none ↦ none
          | some q ↦ feed needle (xs ++ ys) (trim (length needle) q) (m || ends_with needle q.tail)
        ])
          ≡ then_feed needle ys (elim o as (λ x. Option (RawText × Bool)) [
            | none ↦ none
            | some q ↦ feed needle xs (trim (length needle) q) (m || ends_with needle q.tail)
          ])
    by_byte none ih = refl
    by_byte (some q) ih = ih _ _

-- One more frame of output.
pub feed-next_frame :
    (needle xs ys : List ℕ) (r r' : RawText) (b found : Bool)
    → feed needle xs fresh false ≡ some (r, b)
    → feed needle ys r false ≡ some (r', found)
    → feed needle (xs ++ ys) fresh false ≡ some (r', b || found)
feed-next_frame needle xs ys r r' b found e e' =
    feed-append needle xs ys fresh false
    ∙ ap (then_feed needle ys) e
    ∙ feed-also needle ys r b
    ∙ ap (also b) e'
