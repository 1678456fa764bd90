-- ===== src/Tlv/Padding.antt =====
-- tlv.c: the padding in front of an object, and where it ends.
use native_smart_card_os.Tlv.{skip_loop, skip_padding}
use native_smart_card_os.Common.{
  ==→eq, Bool, Bool-cases, List, ap, arith, false, get_or, inl, inr, suc, sym, true, zero, ℕ, ◌==◌,
  ◌||◌, ◌∙◌, ◌+◌, ◌-◌, ◌<◌, ◌≡◌, ◌≤◌,
}

-- Padding ends within the buffer.
pub skip_loop_bounds :
    (n : ℕ) (buf : List ℕ) (pos : ℕ) → (pos ≤ skip_loop n buf pos) × (skip_loop n buf pos ≤ pos + n)
unfolding skip_loop
skip_loop_bounds zero buf pos = omega arith
skip_loop_bounds (suc n) buf pos = ground (arith, skip_loop_bounds n buf (pos + 1))

pub skip_padding_bounds : (buf : List ℕ) (len pos : ℕ) → pos ≤ skip_padding buf len pos
unfolding skip_padding
skip_padding_bounds buf len pos = omega (arith, skip_loop_bounds (len - pos) buf pos)

-- What is passed over is padding, and what follows it is not.
abbrev pub is_padding : ℕ → Bool
is_padding b = b == 0x00 || b == 0xFF

pub skip_loop_padding :
    (n : ℕ) (buf : List ℕ) (pos i : ℕ)
    → pos ≤ i
    → i < skip_loop n buf pos
    → is_padding (get_or buf i 0) ≡ true
unfolding skip_loop
skip_loop_padding zero buf pos i lo hi = absurd (omega arith)
skip_loop_padding (suc n) buf pos i lo hi = elim (Bool-cases (is_padding (get_or buf pos 0))) [
  | inr stop ↦ absurd (ground arith)
  | inl pad ↦ elim (Bool-cases (pos == i)) [
    | inl here ↦ ap (λ k. is_padding (get_or buf k 0)) (sym (==→eq pos i here)) ∙ pad
    | inr later ↦ skip_loop_padding n buf (pos + 1) i (ground arith) (ground arith)
  ]
]

pub skip_loop_end :
    (n : ℕ) (buf : List ℕ) (pos : ℕ)
    → skip_loop n buf pos < pos + n
    → is_padding (get_or buf (skip_loop n buf pos) 0) ≡ false
unfolding skip_loop
skip_loop_end zero buf pos h = absurd (omega arith)
skip_loop_end (suc n) buf pos h = elim (Bool-cases (is_padding (get_or buf pos 0))) [
  | inr stop ↦ ground arith
  | inl pad ↦ ground (arith, pad, skip_loop_end n buf (pos + 1))
]
