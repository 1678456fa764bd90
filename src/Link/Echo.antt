-- ===== src/Link/Echo.antt =====
-- transport.c and hal_arm_io.c: a line that was sent is received.
use native_smart_card_os.Kernel.{received}
use native_smart_card_os.Link.{Delivery, returns}
use native_smart_card_os.Link.Agree.{handle_control_data}
use native_smart_card_os.Link.Hex.{hex_digit, put_hex, put_hex_byte}
use native_smart_card_os.Link.RoundTrip.{
  IsByte, IsPlain, c_string_plain, decode-put_hex, fgets_line, put_hex-IsPlain, trim_plain,
  uart_loop_line,
}
use native_smart_card_os.Link.Scan.{
  IsData, IsDataLine, IsLine, scan_data_line, line-IsData, scan_line, verdict,
}
use native_smart_card_os.Link.Simulator.{
  hal_card_receive, hal_card_send, hex_decode, receive_loop, take_line,
}
use native_smart_card_os.Link.Uart.{
  Frame, is_control_at, is_line_end, new_frame, take_frame, uart_card_receive, uart_card_send,
  uart_loop,
}
use native_smart_card_os.Common.{
  All, List, Option, [], append_assoc, arith, false, length, refl, some, suc, ℕ, ◌%◌, ◌*◌, ◌++◌,
  ◌/◌, ◌<◌, ◌∙◌, ◌∷◌, ◌≡◌, ◌≤◌,
}

plain-IsLine : (text : List ℕ) → All IsPlain text → IsLine text
plain-IsLine [] h = tt
plain-IsLine (c ∷ text) h = (h.0.0, plain-IsLine text h.1)

take_frame_received :
    (atr : List ℕ) (f : Frame) (b : ℕ) (bytes : List ℕ)
    → IsData f
    → verdict f ≡ some (b ∷ bytes)
    → take_frame atr f ≡ returns (received (b ∷ bytes)) []
unfolding take_frame verdict
take_frame_received atr f b bytes h e = ground (arith, h, e)

uart_loop_end :
    (atr : List ℕ) (room : ℕ) (f : Frame) (bytes rest : List ℕ)
    → take_frame atr f ≡ returns (received bytes) []
    → uart_loop atr room f (10 ∷ rest)
      ≡ some (record { event = received bytes; rest = rest; printed = [] })
unfolding uart_loop is_line_end
uart_loop_end atr room f bytes rest e = ground (arith, e)

take_line_received :
    (room c : ℕ) (text bytes : List ℕ)
    → is_control_at c new_frame ≡ false
    → hex_decode room (c ∷ text) ≡ some bytes
    → take_line room (c ∷ text) ≡ returns (received bytes) []
unfolding take_line
take_line_received room c text bytes h e = ground (arith, e, handle_control_data c text h)

-- A command of at least one byte, and what is known of its bytes.
abbrev pub IsCommand : List ℕ → Type 0
IsCommand bytes = All IsByte bytes × (1 ≤ length bytes)

uart_line :
    (atr : List ℕ) (room c : ℕ) (text : List ℕ) (b : ℕ) (bytes rest : List ℕ)
    → IsDataLine (c ∷ text)
    → hex_decode room (c ∷ text) ≡ some (b ∷ bytes)
    → uart_loop atr room new_frame ((c ∷ text) ++ 10 ∷ rest)
      ≡ some (record { event = received (b ∷ bytes); rest = rest; printed = [] })
uart_line atr room c text b bytes rest h e =
    let f = scan_line room (c ∷ text) new_frame in
    uart_loop_line atr room new_frame (c ∷ text) rest h.0
    ∙ uart_loop_end atr room f (b ∷ bytes) rest (
        take_frame_received atr f b bytes (line-IsData room c text h)
          (scan_data_line room (c ∷ text) h ∙ e))

sim_line :
    (fuel room c : ℕ) (text bytes rest : List ℕ)
    → All IsPlain (c ∷ text)
    → length (c ∷ text) < 2047
    → hex_decode room (c ∷ text) ≡ some bytes
    → receive_loop (suc fuel) room ((c ∷ text) ++ 10 ∷ rest)
      ≡ some (record { event = received bytes; rest = rest; printed = [] })
unfolding receive_loop
sim_line fuel room c text bytes rest h short e = ground (
  arith,
  fgets_line 2047 (c ∷ text) rest h short,
  c_string_plain (c ∷ text) h,
  trim_plain (c ∷ text) h,
  take_line_received room c text bytes h.0.2 e,
)

hex_decode-put_hex :
    (room : ℕ) (bytes : List ℕ)
    → All IsByte bytes
    → length bytes ≤ room
    → hex_decode room (put_hex bytes) ≡ some bytes
unfolding hex_decode
hex_decode-put_hex room bytes h small = decode-put_hex room bytes [] h (omega (arith, small))

length-put_hex : (bytes : List ℕ) → length (put_hex bytes) ≡ 2 * length bytes
unfolding put_hex put_hex_byte
length-put_hex [] = refl
length-put_hex (b ∷ bytes) = omega (arith, length-put_hex bytes)

uart_card_receive-send :
    (atr : List ℕ) (room : ℕ) (bytes rest : List ℕ)
    → IsCommand bytes
    → length bytes ≤ room
    → uart_card_receive atr room (uart_card_send bytes ++ rest)
      ≡ some (record { event = received bytes; rest = rest; printed = [] })
unfolding uart_card_receive uart_card_send put_hex put_hex_byte
uart_card_receive-send atr room [] rest h small = absurd (omega (arith, h.1))
uart_card_receive-send atr room (b ∷ bytes) rest h small =
    let text = hex_digit (b % 16) ∷ put_hex bytes in
    let plain = put_hex-IsPlain (b ∷ bytes) in
    let line =
      uart_line atr room (hex_digit ((b / 16) % 16)) text b bytes rest
        (plain-IsLine (put_hex (b ∷ bytes)) plain, plain.0.2)
        (hex_decode-put_hex room (b ∷ bytes) h.0 small) in
    ground (arith, line, append_assoc (put_hex (b ∷ bytes)) (10 ∷ []) rest)

hal_card_receive-send :
    (room : ℕ) (bytes rest : List ℕ)
    → IsCommand bytes
    → length bytes ≤ room
    → 2 * length bytes < 2047
    → hal_card_receive room (hal_card_send bytes ++ rest)
      ≡ some (record { event = received bytes; rest = rest; printed = [] })
unfolding hal_card_receive hal_card_send put_hex put_hex_byte
hal_card_receive-send room [] rest h small short = absurd (omega (arith, h.1))
hal_card_receive-send room (b ∷ bytes) rest h small short =
    let text = hex_digit (b % 16) ∷ put_hex bytes in
    let input = put_hex (b ∷ bytes) ++ 10 ∷ rest in
    let line =
      sim_line (length input) room (hex_digit ((b / 16) % 16)) text (b ∷ bytes) rest
        (put_hex-IsPlain (b ∷ bytes)) (omega (arith, length-put_hex (b ∷ bytes), short))
        (hex_decode-put_hex room (b ∷ bytes) h.0 small) in
    ground (arith, line, append_assoc (put_hex (b ∷ bytes)) (10 ∷ []) rest)

-- A call that hands up the bytes and leaves the rest of the text.
abbrev pub delivered : List ℕ → List ℕ → Option Delivery
delivered bytes rest = some (record { event = received bytes; rest = rest; printed = [] })

-- The line that either program prints for a command is read back as that command by both, with
-- nothing printed and the text behind the line left for later. The command has at least one byte and at most as
-- many as there is room for, and the line fits the 2047 characters of the simulator's buffer.
pub receive-send :
    (atr : List ℕ) (room : ℕ) (bytes rest : List ℕ)
    → IsCommand bytes
    → length bytes ≤ room
    → 2 * length bytes < 2047
    → (hal_card_receive room (hal_card_send bytes ++ rest) ≡ delivered bytes rest)
      × (uart_card_receive atr room (uart_card_send bytes ++ rest) ≡ delivered bytes rest)
      × (hal_card_send bytes ≡ uart_card_send bytes)
unfolding hal_card_send uart_card_send
receive-send atr room bytes rest h small short = (
  hal_card_receive-send room bytes rest h small short,
  uart_card_receive-send atr room bytes rest h small,
  refl,
)
