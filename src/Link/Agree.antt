-- ===== src/Link/Agree.antt =====
-- transport.c against hal_arm_io.c: what they hand to the card of one line.
use Prim.Native.Nat.{ℕ}
use native_smart_card_os.Kernel.{received}
use native_smart_card_os.Link.{LineResult, returns}
use native_smart_card_os.Link.Hex.{hex_nibble}
use native_smart_card_os.Link.Simulator.{
  decode_loop, handle_control, hex_decode, is_skipped, is_space, keep, not_control, trim,
}
use native_smart_card_os.Link.Uart.{is_control_at, new_frame}
use native_smart_card_os.Common.{
  Bool-cases, List, Option, Option-cases, [], arith, false, inl, inr, none, refl, some, ℕ, ◌*◌,
  ◌++◌, ◌+◌, ◌∷◌, ◌≡◌, ◌⊎◌,
}

-- The decodings of two texts agree from every state.
abbrev pub Same : ℕ → List ℕ → List ℕ → Type 0
Same room xs ys =
    (out : List ℕ) (hi : Option ℕ) → decode_loop room xs out hi ≡ decode_loop room ys out hi

decode_cons : (room c : ℕ) (xs ys : List ℕ) → Same room xs ys → Same room (c ∷ xs) (c ∷ ys)
unfolding decode_loop
decode_cons room c xs ys same out hi = elim (Option-cases (hex_nibble c)) [
  | inl e ↦ ground (arith, e, same out hi)
  | inr (v, e) ↦ elim (Option-cases hi) [
    | inl f ↦ ground (arith, e, f, same out hi, same out (some v))
    | inr (h, f) ↦ ground (arith, e, f, same out hi, same (out ++ (h * 16 + v) ∷ []) none)
  ]
]

-- White space at the end does not show in what is decoded.
decode-keep :
    (room c : ℕ) (text kept : List ℕ) → Same room kept text → Same room (keep c kept) (c ∷ text)
unfolding keep decode_loop is_space is_skipped
decode-keep room c text [] same out hi = elim (Bool-cases (is_space c)) [
  | inl e ↦ ground (arith, e, same out hi)
  | inr e ↦ ground (arith, e, decode_cons room c [] text same out hi)
]
decode-keep room c text (d ∷ kept) same out hi = decode_cons room c (d ∷ kept) text same out hi

decode-trim :
    (room : ℕ) (text out : List ℕ) (hi : Option ℕ)
    → decode_loop room (trim text) out hi ≡ decode_loop room text out hi
unfolding trim
decode-trim room [] out hi = refl
decode-trim room (c ∷ text) out hi =
    decode-keep room c text (trim text) (decode-trim room text) out hi

-- The command that a line hands to the card, if it hands up one.
abbrev pub handed_up : LineResult → Option (List ℕ)
handed_up (returns (received bytes) text) = some bytes
handed_up _ = none

-- A command of no bytes is dropped.
abbrev pub some_bytes : Option (List ℕ) → Option (List ℕ)
some_bytes none = none
some_bytes (some []) = none
some_bytes (some (b ∷ bytes)) = some (b ∷ bytes)

-- Which line starts as a line of data for the UART is one for the simulator.
pub handle_control_data :
    (c : ℕ) (text : List ℕ)
    → is_control_at c new_frame ≡ false
    → handle_control (c ∷ text) ≡ (not_control, [])
unfolding is_control_at new_frame handle_control
handle_control_data c text h = ground (arith, h)

-- The trimmed line is empty, or starts like the line.
abbrev pub StartsLike : ℕ → List ℕ → Type 0
StartsLike c line = (line ≡ []) ⊎ ((kept : List ℕ) × (line ≡ c ∷ kept))

pub hex_decode-trim :
    (room : ℕ) (text : List ℕ) → hex_decode room (trim text) ≡ hex_decode room text
unfolding hex_decode
hex_decode-trim room text = decode-trim room text [] none
