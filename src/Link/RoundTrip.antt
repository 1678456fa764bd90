-- ===== src/Link/RoundTrip.antt =====
-- transport.c and hal_arm_io.c: the characters of a line of hex, read back.
use native_smart_card_os.Link.Hex.{hex_digit, hex_nibble-hex_digit, put_hex, put_hex_byte}
use native_smart_card_os.Link.Scan.{IsLine, scan_line}
use native_smart_card_os.Link.Simulator.{
  c_string, decode_loop, fgets, is_skipped, is_space, keep, trim,
}
use native_smart_card_os.Link.Uart.{
  Frame, is_control_at, is_line_end, new_frame, scan_char, uart_loop,
}
use native_smart_card_os.Common.{
  All, List, [], ap, append-nil, append_assoc, arith, false, length, length-append, none, refl,
  some, suc, sym, zero, ℕ, ◌%◌, ◌++◌, ◌+◌, ◌/◌, ◌<◌, ◌∷◌, ◌≡◌, ◌≤◌,
}

abbrev pub IsByte : ℕ → Type 0
IsByte b = b < 256

-- A character of a line of hex.
abbrev pub IsPlain : ℕ → Type 0
IsPlain c = (is_line_end c ≡ false) × (33 ≤ c) × (is_control_at c new_frame ≡ false)

hex_digit-IsPlain : (v : ℕ) → v < 16 → IsPlain (hex_digit v)
unfolding hex_digit is_line_end is_control_at new_frame
hex_digit-IsPlain v small = (ground arith, ground arith, ground arith)

digit_read : (v : ℕ) → v < 16 → is_skipped (hex_digit v) ≡ false
unfolding is_skipped hex_digit
digit_read v small = ground arith

decode_byte :
    (room b : ℕ) (text out : List ℕ)
    → IsByte b
    → length out < room
    → decode_loop room (put_hex_byte b ++ text) out none
      ≡ decode_loop room text (out ++ b ∷ []) none
unfolding decode_loop put_hex_byte
decode_byte room b text out byte free =
    let high = (b / 16) % 16 in
    let low = b % 16 in
    ground
      (arith, digit_read high, digit_read low, hex_nibble-hex_digit high, hex_nibble-hex_digit low)

pub decode-put_hex :
    (room : ℕ) (bytes out : List ℕ)
    → All IsByte bytes
    → length out + length bytes ≤ room
    → decode_loop room (put_hex bytes) out none ≡ some (out ++ bytes)
unfolding decode_loop put_hex
decode-put_hex room [] out h small = ap some (sym (append-nil out))
decode-put_hex room (b ∷ bytes) out h small = ground (
  arith,
  decode_byte room b (put_hex bytes) out h.0 (omega (arith, small)),
  decode-put_hex room bytes (out ++ b ∷ []) h.1 (omega (arith, small, length-append out (b ∷ []))),
  append_assoc out (b ∷ []) bytes,
)

pub put_hex-IsPlain : (bytes : List ℕ) → All IsPlain (put_hex bytes)
unfolding put_hex put_hex_byte
put_hex-IsPlain [] = tt
put_hex-IsPlain (b ∷ bytes) = (
  hex_digit-IsPlain ((b / 16) % 16) (omega arith),
  (hex_digit-IsPlain (b % 16) (omega arith), put_hex-IsPlain bytes),
)

-- A line of plain characters, up to its end.
pub uart_loop_line :
    (atr : List ℕ) (room : ℕ) (f : Frame) (text rest : List ℕ)
    → IsLine text
    → uart_loop atr room f (text ++ 10 ∷ rest)
      ≡ uart_loop atr room (scan_line room text f) (10 ∷ rest)
unfolding uart_loop scan_line
uart_loop_line atr room f [] rest h = refl
uart_loop_line atr room f (c ∷ text) rest h =
    ground (arith, h, uart_loop_line atr room (scan_char room c f) text rest h.1)

pub fgets_line :
    (n : ℕ) (text rest : List ℕ)
    → All IsPlain text
    → length text < n
    → fgets n (text ++ 10 ∷ rest) ≡ (text ++ 10 ∷ [], rest)
unfolding fgets
fgets_line zero text rest h small = absurd (omega arith)
fgets_line (suc n) [] rest h small = refl
fgets_line (suc n) (c ∷ text) rest h small =
    ground (arith, h.0, fgets_line n text rest h.1 (omega (arith, small)))

pub c_string_plain :
    (text : List ℕ) → All IsPlain text → c_string (text ++ 10 ∷ []) ≡ text ++ 10 ∷ []
unfolding c_string
c_string_plain [] h = refl
c_string_plain (c ∷ text) h = ground (arith, h.0, c_string_plain text h.1)

pub trim_plain : (text : List ℕ) → All IsPlain text → trim (text ++ 10 ∷ []) ≡ text
unfolding trim keep is_space
trim_plain [] h = refl
trim_plain (c ∷ []) h = ground (arith, h.0)
trim_plain (c ∷ d ∷ text) h = ground (arith, trim_plain (d ∷ text) h.1)
