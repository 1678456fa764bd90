-- ===== src/Tree/Blocks.antt =====
-- The block of a file in FLASH, as a list of its own.
use native_smart_card_os.Common.{
  List, [], ap, arith, drop, if-split, if◌then◌else◌, length, length-drop, length-slice, ltb,
  overwrite, refl, slice, splice, suc, sym, take, take-all, zero, ℕ, ◌+◌, ◌-◌, ◌∙◌, ◌∷◌, ◌≡◌, ◌≤◌,
}

drop_empty : (a : ℕ) → drop {A = ℕ} a [] ≡ []
drop_empty zero = refl
drop_empty (suc a) = refl

drop-drop : (a b c : ℕ) (xs : List ℕ) → a + b ≡ c → drop b (drop a xs) ≡ drop c xs
drop-drop zero b c xs h = ground (arith, h)
drop-drop (suc a) b zero xs h = absurd (omega (arith, h))
drop-drop (suc a) b (suc c) [] h = drop_empty b
drop-drop (suc a) b (suc c) (x ∷ xs) h = drop-drop a b c xs (omega (arith, h))

take-take : (a b : ℕ) (xs : List ℕ) → a ≤ b → take a (take b xs) ≡ take a xs
take-take zero b xs h = refl
take-take (suc a) zero xs h = absurd (omega (arith, h))
take-take (suc a) (suc b) [] h = refl
take-take (suc a) (suc b) (x ∷ xs) h = ap (λ t. x ∷ t) (take-take a b xs (omega (arith, h)))

drop-take : (a n k : ℕ) (xs : List ℕ) → n ≡ a + k → drop a (take n xs) ≡ take k (drop a xs)
drop-take zero n k xs h = ground (arith, h)
drop-take (suc a) zero k xs h = absurd (omega (arith, h))
drop-take (suc a) (suc n) zero [] h = refl
drop-take (suc a) (suc n) (suc k) [] h = refl
drop-take (suc a) (suc n) k (x ∷ xs) h = drop-take a n k xs (omega (arith, h))

-- A part of a block is a slice of its own, cut at the end of the block.
pub slice-slice :
    (a size off left n at : ℕ) (mem : List ℕ)
    → size ≡ off + left
    → at ≡ a + off
    → n ≤ left
    → slice off n (slice a size mem) ≡ slice at n mem
slice-slice a size off left n at mem whole place small =
    ap (take n) (drop-take off size left (drop a mem) whole)
    ∙ take-take n left (drop off (drop a mem)) small
    ∙ ap (take n) (drop-drop a off at mem (omega (arith, place)))

-- What is asked for behind the end of a block is cut.
pub slice_cut :
    (a size off len : ℕ) (mem : List ℕ)
    → a + size ≤ length mem
    → off ≤ size
    → slice off len (slice a size mem)
      ≡ slice (a + off) (if ltb len (size - off) then len else size - off) mem
slice_cut a size off len mem inside low =
    let block = slice a size mem in
    let whole : size ≡ off + (size - off) = omega (arith, low) in
    if-split (λ n. slice off len block ≡ slice (a + off) n mem) (ltb len (size - off))
      (λ few.
        slice-slice a size off (size - off) len (a + off) mem whole refl (ground (arith, few)))
      (λ many.
        let tail : length (drop off block) ≡ size - off =
          omega (arith, length-drop off block, length-slice a size mem inside) in
        take-all len (drop off block) (ground (arith, many, tail))
        ∙ sym (take-all (size - off) (drop off block) (omega (arith, tail)))
        ∙ slice-slice a size off (size - off) (size - off) (a + off) mem whole refl (omega arith))

take-overwrite_within :
    (n : ℕ) (src mem : List ℕ)
    → length src ≤ n
    → take n (overwrite src mem) ≡ overwrite src (take n mem)
unfolding overwrite
take-overwrite_within n [] mem h = refl
take-overwrite_within zero (x ∷ src) mem h = absurd (omega (arith, h))
take-overwrite_within (suc n) (x ∷ src) [] h = refl
take-overwrite_within (suc n) (x ∷ src) (m ∷ mem) h =
    ap (λ t. x ∷ t) (take-overwrite_within n src mem (omega (arith, h)))

splice_empty : (off : ℕ) (src : List ℕ) → splice off src [] ≡ []
unfolding splice overwrite
splice_empty zero [] = refl
splice_empty zero (x ∷ src) = refl
splice_empty (suc off) src = refl

take-splice_within :
    (off n : ℕ) (src mem : List ℕ)
    → off + length src ≤ n
    → take n (splice off src mem) ≡ splice off src (take n mem)
unfolding splice
take-splice_within zero n src mem h = take-overwrite_within n src mem (omega (arith, h))
take-splice_within (suc off) zero src mem h = absurd (omega (arith, h))
take-splice_within (suc off) (suc n) src [] h = refl
take-splice_within (suc off) (suc n) src (m ∷ mem) h =
    ap (λ t. m ∷ t) (take-splice_within off n src mem (omega (arith, h)))

-- A write within the block is a write of the block.
pub slice-splice_within :
    (a n off at : ℕ) (src mem : List ℕ)
    → at ≡ a + off
    → off + length src ≤ n
    → slice a n (splice at src mem) ≡ splice off src (slice a n mem)
unfolding splice
slice-splice_within zero n off at src mem place h =
    ground (arith, place, take-splice_within off n src mem h)
slice-splice_within (suc a) n off zero src mem place h = absurd (omega (arith, place))
slice-splice_within (suc a) zero off (suc at) src [] place h = sym (splice_empty off src)
slice-splice_within (suc a) (suc n) off (suc at) src [] place h = sym (splice_empty off src)
slice-splice_within (suc a) n off (suc at) src (m ∷ mem) place h =
    slice-splice_within a n off at src mem (omega (arith, place)) h
