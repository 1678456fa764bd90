-- ===== src/OsMem/Compare.antt =====
-- os_mem.c: the comparison that reads every byte is the comparison of the blocks.
use native_smart_card_os.OsMem.{diff_loop, os_memeq_ct}
use native_smart_card_os.Common.{
  ==→eq, All, Bool, List, [], arith, bit_or, bit_xor, false, length, ltb, not, passes_below,
  passes_below_lem, refl, some, suc, take, true, zero, ℕ, ◌&&◌, ◌<◌, ◌==◌, ◌∷◌, ◌≡◌, ◌≤◌,
}

abbrev agree : Bool → Bool → Bool
agree true b = b
agree false b = not b

-- What the loop needs of two bytes.
abbrev byte_facts : ℕ → ℕ → Bool
byte_facts x y =
    agree (bit_xor x y == 0) (x == y)
    && agree (bit_or x y == 0) (x == 0 && y == 0)
    && ltb (bit_xor x y) 256
    && ltb (bit_or x y) 256

byte_table : passes_below (λ x. passes_below (byte_facts x) 256) 256 ≡ true
unfolding passes_below
byte_table = refl

byte_facts_lem : (x y : ℕ) → x < 256 → y < 256 → byte_facts x y ≡ true
byte_facts_lem x y h k =
    passes_below_lem (byte_facts x) {bound = 256} y k
      (passes_below_lem (λ z. passes_below (byte_facts z) 256) {bound = 256} x h byte_table)

-- One round: the difference so far is 0 after it exactly when it was, and the two bytes are equal.
round_zero :
    (diff x y : ℕ)
    → diff < 256
    → x < 256
    → y < 256
    → (bit_or diff (bit_xor x y) < 256)
      × (bit_or diff (bit_xor x y) ≡ 0 → (diff ≡ 0) × (x ≡ y))
      × (diff ≡ 0 → x ≡ y → bit_or diff (bit_xor x y) ≡ 0)
round_zero diff x y hd hx hy =
    let bytes = byte_facts_lem x y hx hy in
    let small : bit_xor x y < 256 = ground (arith, bytes) in
    let both = byte_facts_lem diff (bit_xor x y) hd small in
    (
      ground (arith, both),
      λ e. ground (arith, both, bytes, e),
      λ e f. ground (arith, both, bytes, e, f),
    )

abbrev pub AllBytes : List ℕ → Type 0
AllBytes xs = All (λ b. b < 256) xs

diff_loop_lem :
    (n diff : ℕ) (a b : List ℕ)
    → diff < 256
    → AllBytes a
    → AllBytes b
    → n ≤ length a
    → n ≤ length b
    → (diff_loop n diff a b ≡ 0 → (diff ≡ 0) × (take n a ≡ take n b))
      × (diff ≡ 0 → take n a ≡ take n b → diff_loop n diff a b ≡ 0)
unfolding diff_loop
diff_loop_lem zero diff a b hd ha hb la lb = (λ e. (e, refl), λ e f. e)
diff_loop_lem (suc n) diff [] b hd ha hb la lb = absurd (omega arith)
diff_loop_lem (suc n) diff (x ∷ a) [] hd ha hb la lb = absurd (omega arith)
diff_loop_lem (suc n) diff (x ∷ a) (y ∷ b) hd (hx, ha) (hy, hb) la lb =
    let (small, back, on) = round_zero diff x y hd hx hy in
    let (there, here) =
      diff_loop_lem n (bit_or diff (bit_xor x y)) a b small ha hb (omega arith) (omega arith) in
    (
      λ e. let (none_yet, rest) = there e in let (before, same) = back none_yet in (before, cc),
      λ e f. here (on e (cc)) (cc),
    )

-- The comparison answers "equal" exactly when the first `len` bytes of both blocks are the same.
pub os_memeq_ct_lem :
    (a b : List ℕ) (len : ℕ)
    → AllBytes a
    → AllBytes b
    → len ≤ length a
    → len ≤ length b
    → (os_memeq_ct (some a) (some b) len ≡ true → take len a ≡ take len b)
      × (take len a ≡ take len b → os_memeq_ct (some a) (some b) len ≡ true)
unfolding os_memeq_ct
os_memeq_ct_lem a b len ha hb la lb =
    let (there, here) = diff_loop_lem len 0 a b (omega arith) ha hb la lb in
    (λ e. (there (==→eq (diff_loop len 0 a b) 0 e)).1, λ e. ground (arith, here refl e))
