-- ===== src/Link/Simulator.antt =====
-- simulator/transport.c: the reader's text comes from the standard input, and the card's goes to the
-- standard output. What the program prints on the standard error is left out.
use native_smart_card_os.Kernel.{link_down, link_error, link_reset, received}
use native_smart_card_os.Link.{Delivery, LineResult, after_turn, next_line, returns}
use native_smart_card_os.Link.Hex.{hex_nibble, put_hex}
use native_smart_card_os.Common.{
  Bool, List, Option, [], codes, false, get_or, if◌then◌else◌, leb, length, none, not, some, suc,
  true, zero, ℕ, ◌&&◌, ◌*◌, ◌++◌, ◌+◌, ◌-◌, ◌==◌, ◌||◌, ◌∷◌,
}

-- `s_atr`
unfoldable pub vcard_atr : List ℕ
vcard_atr = 0x3B ∷ 0x94 ∷ 0x11 ∷ 0x00 ∷ 0x53 ∷ 0x43 ∷ 0x4F ∷ 0x53 ∷ []

-- `LINE_MAX`
abbrev pub line_max : ℕ
line_max = 2048

-- C's `fgets` with room for `n` characters and the NUL: the line, and what is left of the stream.
unfoldable pub fgets : ℕ → List ℕ → List ℕ × List ℕ
fgets zero input = ([], input)
fgets (suc n) [] = ([], [])
fgets (suc n) (c ∷ input) =
    let (line, rest) = fgets n input in if c == 10 then (c ∷ [], input) else (c ∷ line, rest)

-- The characters of a C string, which ends at the first NUL.
unfoldable pub c_string : List ℕ → List ℕ
c_string [] = []
c_string (c ∷ text) = if c == 0 then [] else c ∷ c_string text

-- C's `strcmp` against a text, as a test for 0.
unfoldable pub same_text : List ℕ → List ℕ → Bool
same_text [] [] = true
same_text [] (d ∷ ds) = false
same_text (c ∷ cs) [] = false
same_text (c ∷ cs) (d ∷ ds) = c == d && same_text cs ds

unfoldable pub is_space : ℕ → Bool
is_space c = c == 10 || c == 13 || c == b' ' || c == 9

-- One turn of the loop of `trim`, which goes on while all that follows the character is gone.
unfoldable pub keep : ℕ → List ℕ → List ℕ
keep c [] = if is_space c then [] else c ∷ []
keep c (d ∷ kept) = c ∷ d ∷ kept

-- `trim`: the white space at the end goes.
unfoldable pub trim : List ℕ → List ℕ
unfolding keep
trim [] = []
trim (c ∷ text) = keep c (trim text)

-- The characters that `hex_decode` passes over.
unfoldable pub is_skipped : ℕ → Bool
is_skipped ch = ch == b' ' || ch == 9 || ch == 13 || ch == 10 || ch == b':'

-- The loop of `hex_decode`: the bytes so far, and the high half of the next one. The two halves of a
-- byte share no bit, so `(hi << 4) | v` is a sum.
unfoldable pub decode_loop : ℕ → List ℕ → List ℕ → Option ℕ → Option (List ℕ)
decode_loop room [] out none = some out
decode_loop room [] out (some hi) = none
decode_loop room (ch ∷ text) out hi = elim (is_skipped ch) [
  | true ↦ decode_loop room text out hi
  | false ↦ elim (hex_nibble ch) [
    | none ↦ none
    | some v ↦ elim hi [
      | none ↦ decode_loop room text out (some v)
      | some h ↦ elim (leb room (length out)) [
        | true ↦ none
        | false ↦ decode_loop room text (out ++ ((h * 16 + v) ∷ [])) none
      ]
    ]
  ]
]

-- `hex_decode`; -1 is `none`.
unfoldable pub hex_decode : ℕ → List ℕ → Option (List ℕ)
hex_decode room text = decode_loop room text [] none

-- `print_atr`
unfoldable pub print_atr : List ℕ
print_atr = put_hex vcard_atr ++ 10 ∷ []

-- The results of `handle_control`: 1, 0, -1 and -2.
pub data Control : Type 0 where
  handled not_control shut_down reader_reset : Control

-- `hal_reset` does nothing in the simulator.
unfoldable pub handle_control : List ℕ → Control × List ℕ
handle_control line =
    if get_or line 0 0 == b'#'
    then (handled, [])
    else if not (get_or line 0 0 == b'.')
    then (not_control, [])
    else if same_text line (codes ".quit") || same_text line (codes ".exit")
    then (shut_down, [])
    else if same_text line (codes ".atr")
    then (handled, print_atr)
    else if same_text line (codes ".reset")
    then (reader_reset, print_atr)
    else (handled, [])

-- A malformed line is not handed to the card.
unfoldable pub decoded : Option (List ℕ) → LineResult
decoded none = next_line []
decoded (some bytes) = returns (received bytes) []

-- What follows `handle_control`, by its result and what it printed.
unfoldable pub after_control : ℕ → List ℕ → Control → List ℕ → LineResult
after_control room line handled printed = next_line printed
after_control room line shut_down printed = returns link_down printed
after_control room line reader_reset printed = returns link_reset printed
after_control room line not_control printed = decoded (hex_decode room line)

-- The body of the loop of `hal_card_receive`, on a line that is trimmed.
unfoldable pub take_line : ℕ → List ℕ → LineResult
unfolding decoded after_control
take_line room [] = next_line []
take_line room (c ∷ text) =
    let (control, printed) = handle_control (c ∷ text) in
    after_control room (c ∷ text) control printed

-- The loop itself. Each turn reads a character at least.
unfoldable pub receive_loop : ℕ → ℕ → List ℕ → Option Delivery
unfolding after_turn
receive_loop zero room input = none
receive_loop (suc fuel) room [] = some (record { event = link_down; rest = []; printed = [] })
receive_loop (suc fuel) room (c ∷ input) =
    let (line, rest) = fgets (line_max - 1) (c ∷ input) in
    after_turn (take_line room (trim (c_string line))) rest (receive_loop fuel room rest)

unfoldable pub hal_card_receive : ℕ → List ℕ → Option Delivery
unfolding receive_loop
hal_card_receive room input =
    if room == 0
    then some (record { event = link_error; rest = input; printed = [] })
    else receive_loop (length input + 1) room input

unfoldable pub hal_card_send : List ℕ → List ℕ
hal_card_send bytes = put_hex bytes ++ 10 ∷ []
