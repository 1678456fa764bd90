-- ===== src/Common/Memory.antt =====
-- A region of bytes as a list: reading a slice, writing a block in place, and how they interact.
use Prim.Native.Nat.{ℕ, zero, suc, ◌+◌, ◌≤◌, ◌<◌}
use mathlib.Core.Path.{◌≡◌, refl, ap, sym, ◌∙◌}
use mathlib.Core.List.{List, [], ◌∷◌, ◌++◌}
use native.Mathlib.Omega.{arith}
use native_smart_card_os.Common.Lists.{
  get_or, length, take, drop, length-take, length-drop, take-all,
}

-- The `n` bytes from `off` on.
abbrev pub slice : ℕ → ℕ → List ℕ → List ℕ
slice off n mem = take n (drop off mem)

-- The bytes of `src` over the front of `mem`.
unfoldable pub overwrite : List ℕ → List ℕ → List ℕ
overwrite [] mem = mem
overwrite (x ∷ src) [] = []
overwrite (x ∷ src) (m ∷ mem) = x ∷ overwrite src mem

-- The bytes of `src` over those of `mem` from `off` on; past the end nothing is written.
unfoldable pub splice : ℕ → List ℕ → List ℕ → List ℕ
unfolding overwrite
splice zero src mem = overwrite src mem
splice (suc off) src [] = []
splice (suc off) src (m ∷ mem) = m ∷ splice off src mem

length-overwrite : (src mem : List ℕ) → length (overwrite src mem) ≡ length mem
unfolding overwrite
length-overwrite [] mem = refl
length-overwrite (x ∷ src) [] = refl
length-overwrite (x ∷ src) (m ∷ mem) = ap suc (length-overwrite src mem)

pub splice-nil : (n : ℕ) (xs : List ℕ) → splice n [] xs ≡ xs
unfolding splice
splice-nil zero xs = refl
splice-nil (suc n) [] = refl
splice-nil (suc n) (x ∷ xs) = ap (λ t. x ∷ t) (splice-nil n xs)

pub length-splice : (off : ℕ) (src mem : List ℕ) → length (splice off src mem) ≡ length mem
unfolding splice
length-splice zero src mem = length-overwrite src mem
length-splice (suc off) src [] = refl
length-splice (suc off) src (m ∷ mem) = ap suc (length-splice off src mem)

take-overwrite :
    (src mem : List ℕ) → length src ≤ length mem → take (length src) (overwrite src mem) ≡ src
unfolding overwrite
take-overwrite [] mem h = refl
take-overwrite (x ∷ src) [] h = absurd (omega arith)
take-overwrite (x ∷ src) (m ∷ mem) h = ap (λ t. x ∷ t) (take-overwrite src mem (omega arith))

drop-overwrite :
    (src mem : List ℕ) (o : ℕ) → length src ≤ o → drop o (overwrite src mem) ≡ drop o mem
unfolding overwrite
drop-overwrite [] mem o h = refl
drop-overwrite (x ∷ src) mem zero h = absurd (omega arith)
drop-overwrite (x ∷ src) [] (suc o) h = refl
drop-overwrite (x ∷ src) (m ∷ mem) (suc o) h = drop-overwrite src mem o (omega arith)

-- A block that is read where it was written is the block.
pub slice-splice_self :
    (off : ℕ) (src mem : List ℕ)
    → off + length src ≤ length mem
    → slice off (length src) (splice off src mem) ≡ src
unfolding splice
slice-splice_self zero src mem h = take-overwrite src mem (omega arith)
slice-splice_self (suc off) src [] h = absurd (omega arith)
slice-splice_self (suc off) src (m ∷ mem) h = slice-splice_self off src mem (omega arith)

-- A block as long as the region takes its place.
pub splice-whole : (src mem : List ℕ) → length src ≡ length mem → splice 0 src mem ≡ src
splice-whole src mem h =
    sym (take-all (length src) (splice 0 src mem) (omega (arith, h, length-splice 0 src mem)))
    ∙ slice-splice_self 0 src mem (omega (arith, h))

-- A block behind the one written is unchanged.
pub slice-splice_after :
    (off o n : ℕ) (src mem : List ℕ)
    → off + length src ≤ o
    → slice o n (splice off src mem) ≡ slice o n mem
unfolding splice
slice-splice_after zero o n src mem h = ap (take n) (drop-overwrite src mem o (omega arith))
slice-splice_after (suc off) zero n src mem h = absurd (omega arith)
slice-splice_after (suc off) (suc o) n src [] h = refl
slice-splice_after (suc off) (suc o) n src (m ∷ mem) h =
    slice-splice_after off o n src mem (omega arith)

pub take-splice :
    (off n : ℕ) (src mem : List ℕ) → n ≤ off → take n (splice off src mem) ≡ take n mem
unfolding splice
take-splice off zero src mem h = refl
take-splice zero (suc n) src mem h = absurd (omega arith)
take-splice (suc off) (suc n) src [] h = refl
take-splice (suc off) (suc n) src (m ∷ mem) h =
    ap (λ t. m ∷ t) (take-splice off n src mem (omega arith))

-- A block before the one written is unchanged.
pub slice-splice_before :
    (off o n : ℕ) (src mem : List ℕ) → o + n ≤ off → slice o n (splice off src mem) ≡ slice o n mem
unfolding splice
slice-splice_before off zero n src mem h = take-splice off n src mem (omega arith)
slice-splice_before zero (suc o) n src mem h = absurd (omega arith)
slice-splice_before (suc off) (suc o) n src [] h = refl
slice-splice_before (suc off) (suc o) n src (m ∷ mem) h =
    slice-splice_before off o n src mem (omega arith)

-- A slice within the region has the length that was asked for.
pub length-slice : (off n : ℕ) (mem : List ℕ) → off + n ≤ length mem → length (slice off n mem) ≡ n
length-slice off n mem h = omega (arith, length-take n (drop off mem), length-drop off mem)

-- Up to its end, the written region is what stood before the block, and the block.
pub take-splice_end :
    (off : ℕ) (src mem : List ℕ)
    → off + length src ≤ length mem
    → take (off + length src) (splice off src mem) ≡ take off mem ++ src
unfolding splice
take-splice_end zero src mem h = ground (arith, take-overwrite src mem (omega arith))
take-splice_end (suc off) src [] h = absurd (omega arith)
take-splice_end (suc off) src (m ∷ mem) h =
    let e : suc off + length src ≡ suc (off + length src) = omega arith in
    rw e (ap (λ t. m ∷ t) (take-splice_end off src mem (omega arith)))

-- A byte before the block that is written, and a byte of the block itself.
pub get_or-splice_before :
    (off i d : ℕ) (src mem : List ℕ) → i < off → get_or (splice off src mem) i d ≡ get_or mem i d
unfolding splice
get_or-splice_before zero i d src mem h = absurd (omega arith)
get_or-splice_before (suc off) i d src [] h = refl
get_or-splice_before (suc off) zero d src (m ∷ mem) h = refl
get_or-splice_before (suc off) (suc i) d src (m ∷ mem) h =
    get_or-splice_before off i d src mem (omega arith)

get_or-overwrite :
    (i d : ℕ) (src mem : List ℕ)
    → i < length src
    → length src ≤ length mem
    → get_or (overwrite src mem) i d ≡ get_or src i d
unfolding overwrite
get_or-overwrite i d [] mem h room = absurd (omega arith)
get_or-overwrite i d (b ∷ src) [] h room = absurd (omega arith)
get_or-overwrite zero d (b ∷ src) (m ∷ mem) h room = refl
get_or-overwrite (suc i) d (b ∷ src) (m ∷ mem) h room =
    get_or-overwrite i d src mem (omega arith) (omega arith)

pub get_or-splice_self :
    (off i d : ℕ) (src mem : List ℕ)
    → i < length src
    → off + length src ≤ length mem
    → get_or (splice off src mem) (off + i) d ≡ get_or src i d
unfolding splice
get_or-splice_self zero i d src mem h room =
    let q : 0 + i ≡ i = omega arith in rw q (get_or-overwrite i d src mem h (omega arith))
get_or-splice_self (suc off) i d src [] h room = absurd (omega arith)
get_or-splice_self (suc off) i d src (m ∷ mem) h room =
    let q : suc off + i ≡ suc (off + i) = omega arith in
    rw q (get_or-splice_self off i d src mem h (omega arith))
