-- ===== src/Link/Uart.antt =====
-- src/hal/arm-scv1/hal_arm_io.c: the reader's text comes from the UART and the card's goes to it.
use native_smart_card_os.Kernel.{link_down, link_error, link_reset, received}
use native_smart_card_os.Link.{Delivery, LineResult, after_turn, next_line, returns}
use native_smart_card_os.Link.Hex.{hex_nibble, is_separator, put_hex}
use native_smart_card_os.Common.{
  Bool, List, Option, [], codes, false, get_or, if◌then◌else◌, leb, length, ltb, none, not, some,
  true, ℕ, ◌&&◌, ◌*◌, ◌++◌, ◌+◌, ◌-◌, ◌==◌, ◌||◌, ◌∷◌,
}

-- The locals of one turn of the outer loop. `first` is used once, for `is_control`.
pub record Frame : Type 0 where
  pub bytes : List ℕ
  pub hi : Option ℕ
  pub bad : Bool
  pub seen : ℕ
  pub is_control : Bool
  pub control : List ℕ

unfoldable pub new_frame : Frame
new_frame = record {
  bytes = [];
  hi = none;
  bad = false;
  seen = 0;
  is_control = false;
  control = [];
}

-- `sizeof(control)`
abbrev pub control_size : ℕ
control_size = 16

-- A digit: the high half is kept, or a byte is complete and must have room.
unfoldable pub scan_digit : ℕ → ℕ → Frame → Frame
scan_digit room v f = elim f.hi [
  | none ↦ record f { hi = some v }
  | some h ↦
      if leb room (length f.bytes)
      then record f { bad = true; hi = none }
      else record f { bytes = f.bytes ++ ((h * 16 + v) ∷ []); hi = none }
]

-- A character of a line that is not for the transport itself.
unfoldable pub scan_data : ℕ → ℕ → Frame → Frame
scan_data room c f =
    if is_separator c
    then f
    else elim (hex_nibble c) [ none ↦ record f { bad = true } | some v ↦ scan_digit room v f ]

-- The first character of a line says whether it is for the transport itself.
unfoldable pub is_control_at : ℕ → Frame → Bool
is_control_at c f = if f.seen == 0 then c == b'.' || c == b'#' else f.is_control

-- The body of the inner loop, on a character that does not end the line.
unfoldable pub scan_char : ℕ → ℕ → Frame → Frame
scan_char room c f =
    let g = record f { seen = f.seen + 1; is_control = is_control_at c f } in
    if is_control_at c f
    then if ltb (length f.control) (control_size - 1)
      then record g { control = f.control ++ c ∷ [] }
      else g
    else scan_data room c g

unfoldable pub is_line_end : ℕ → Bool
is_line_end c = c == 10 || c == 13

-- `hi >= 0`
abbrev pub is_half : Option ℕ → Bool
is_half none = false
is_half (some h) = true

-- What the outer loop does with a line, by the answer to reset that is linked in.
unfoldable pub take_frame : List ℕ → Frame → LineResult
take_frame atr f =
    let send_atr = put_hex atr ++ 10 ∷ [] in
    if f.seen == 0
    then next_line []
    else if f.is_control
    then if get_or f.control 0 0 == b'#'
      then next_line []
      else if get_or f.control 1 0 == b'q'
      then returns link_down []
      else if get_or f.control 1 0 == b'a'
      then next_line send_atr
      else if get_or f.control 1 0 == b'r'
      then returns link_reset send_atr
      else next_line (codes "transport: unknown control" ++ 10 ∷ [])
    else if length f.bytes == 0 && not f.bad && not (is_half f.hi)
    then next_line []
    else if f.bad || is_half f.hi
    then next_line (codes "transport: not valid hex (or too long)" ++ 10 ∷ [])
    else returns (received f.bytes) []

-- The two loops as one over the characters that arrive. `none`: the card waits for the next one, in
-- `uart_getc`, whose test for a negative character never holds.
unfoldable pub uart_loop : List ℕ → ℕ → Frame → List ℕ → Option Delivery
unfolding after_turn
uart_loop atr room f [] = none
uart_loop atr room f (c ∷ input) = elim (is_line_end c) [
  | false ↦ uart_loop atr room (scan_char room c f) input
  | true ↦ after_turn (take_frame atr f) input (uart_loop atr room new_frame input)
]

-- `hal_card_receive` of the UART.
unfoldable pub uart_card_receive : List ℕ → ℕ → List ℕ → Option Delivery
unfolding uart_loop new_frame
uart_card_receive atr room input =
    if room == 0
    then some (record { event = link_error; rest = input; printed = [] })
    else uart_loop atr room new_frame input

-- `hal_card_send` of the UART.
unfoldable pub uart_card_send : List ℕ → List ℕ
uart_card_send bytes = put_hex bytes ++ 10 ∷ []
