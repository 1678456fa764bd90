-- ===== src/Link/Hex.antt =====
-- The hex codec that transport.c and hal_arm_io.c each hold a copy of, and the answer to reset.
use native_smart_card_os.Common.{
  Bool, Bool-cases, List, Option, Option-cases, [], arith, false, if◌then◌else◌, inl, inr, leb, ltb,
  none, some, true, ℕ, ◌%◌, ◌&&◌, ◌++◌, ◌+◌, ◌-◌, ◌/◌, ◌<◌, ◌==◌, ◌||◌, ◌∷◌, ◌≡◌, ◌≤◌,
}

-- `hex_nibble`; -1 is `none`.
unfoldable pub hex_nibble : ℕ → Option ℕ
hex_nibble ch =
    if leb b'0' ch && leb ch b'9'
    then some (ch - b'0')
    else if leb b'a' ch && leb ch b'f'
    then some (ch - b'a' + 10)
    else if leb b'A' ch && leb ch b'F'
    then some (ch - b'A' + 10)
    else none

-- One of the characters "0123456789ABCDEF".
unfoldable pub hex_digit : ℕ → ℕ
hex_digit v = if ltb v 10 then b'0' + v else b'A' + (v - 10)

-- `put_hex_byte`, and what "%02X" prints of a byte.
unfoldable pub put_hex_byte : ℕ → List ℕ
unfolding hex_digit
put_hex_byte b = hex_digit ((b / 16) % 16) ∷ hex_digit (b % 16) ∷ []

unfoldable pub put_hex : List ℕ → List ℕ
put_hex [] = []
put_hex (b ∷ bytes) = put_hex_byte b ++ put_hex bytes

-- The separators that both decoders skip inside a line.
unfoldable pub is_separator : ℕ → Bool
is_separator ch = ch == b' ' || ch == 9 || ch == b':'

-- A character is a separator, a digit, or neither.
pub data Symbol (ch : ℕ) : Type 0 where
  sep_char : is_separator ch ≡ true → Symbol ch
  digit_char : (v : ℕ) → is_separator ch ≡ false → hex_nibble ch ≡ some v → v < 16 → Symbol ch
  bad_char : is_separator ch ≡ false → hex_nibble ch ≡ none → Symbol ch

hex_nibble_small : (ch v : ℕ) → hex_nibble ch ≡ some v → v < 16
unfolding hex_nibble
hex_nibble_small ch v e = ground (arith, e)

pub symbol : (ch : ℕ) → Symbol ch
symbol ch = elim (Bool-cases (is_separator ch)) [
  | inl e ↦ sep_char e
  | inr e ↦ elim (Option-cases (hex_nibble ch)) [
    | inl none_e ↦ bad_char e none_e
    | inr (v, v_e) ↦ digit_char v e v_e (hex_nibble_small ch v v_e)
  ]
]

-- A digit is read back.
pub hex_nibble-hex_digit : (v : ℕ) → v < 16 → hex_nibble (hex_digit v) ≡ some v
unfolding hex_nibble hex_digit
hex_nibble-hex_digit v small = ground arith

pub hex_digit_shown :
    (v : ℕ)
    → v < 16
    → (is_separator (hex_digit v) ≡ false) × (33 ≤ hex_digit v) × (hex_digit v ≤ 70)
unfolding hex_digit is_separator
hex_digit_shown v small = (ground arith, ground arith, ground arith)
