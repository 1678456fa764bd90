-- ===== src/Link/Delivered.antt =====
-- transport.c and hal_arm_io.c: a call of `hal_card_receive` makes progress and keeps to its room.
use native_smart_card_os.Kernel.{link_down}
use native_smart_card_os.Link.{Delivery, LineResult, after_printing, after_turn, next_line, returns}
use native_smart_card_os.Link.Bounds.{
  DoneFits, IsDelivered, fgets_step, scan_char-bounded, take_frame-DoneFits, take_line-DoneFits,
}
use native_smart_card_os.Link.Simulator.{
  c_string, fgets, hal_card_receive, receive_loop, take_line, trim,
}
use native_smart_card_os.Link.Uart.{
  Frame, is_line_end, new_frame, scan_char, take_frame, uart_card_receive, uart_loop,
}
use native_smart_card_os.Common.{
  List, Option, [], arith, false, if-split, inl, inr, length, none, refl, some, suc, true, zero, ℕ,
  ◌+◌, ◌<◌, ◌==◌, ◌∷◌, ◌≡◌, ◌≤◌,
}

-- What holds of a call that returns; a call that waits has nothing to say.
abbrev pub IfDelivered : ℕ → List ℕ → Option Delivery → Type 0
IfDelivered room input none = Unit
IfDelivered room input (some d) = IsDelivered room input d

-- A turn is followed by what the rest delivers.
turn-IfDelivered :
    (room : ℕ) (input rest : List ℕ) (turn : LineResult) (next : Option Delivery)
    → length rest < length input
    → DoneFits room turn
    → IfDelivered room rest next
    → IfDelivered room input (after_turn turn rest next)
unfolding after_turn
turn-IfDelivered room input rest (returns event text) next shorter h g = (inr shorter, h)
turn-IfDelivered room input rest (next_line text) none shorter h g = tt
turn-IfDelivered room input rest (next_line text) (some d) shorter h (inl e, small) = (inl e, small)
turn-IfDelivered room input rest (next_line text) (some d) shorter h (inr less, small) =
    (inr (omega (arith, less, shorter)), small)

-- A character read does not undo what holds of the rest.
later-IfDelivered :
    (room c : ℕ) (input : List ℕ) (o : Option Delivery)
    → IfDelivered room input o
    → IfDelivered room (c ∷ input) o
later-IfDelivered room c input none h = tt
later-IfDelivered room c input (some d) (inl e, small) = (inl e, small)
later-IfDelivered room c input (some d) (inr less, small) = (inr (omega (arith, less)), small)

uart_loop-IfDelivered :
    (atr : List ℕ) (room : ℕ) (f : Frame) (input : List ℕ)
    → length f.bytes ≤ room
    → IfDelivered room input (uart_loop atr room f input)
unfolding uart_loop new_frame
uart_loop-IfDelivered atr room f [] h = tt
uart_loop-IfDelivered atr room f (c ∷ input) h =
    elim (is_line_end c)
      as (λ b. IfDelivered room (c ∷ input) (elim b [
        | false ↦ uart_loop atr room (scan_char room c f) input
        | true ↦ after_turn (take_frame atr f) input (uart_loop atr room new_frame input)
      ])) [
        | false ↦ later-IfDelivered room c input (uart_loop atr room (scan_char room c f) input) (
            uart_loop-IfDelivered atr room (scan_char room c f) input
              (scan_char-bounded room c f h))
        | true ↦
            turn-IfDelivered room (c ∷ input) input (take_frame atr f)
              (uart_loop atr room new_frame input) (omega arith) (take_frame-DoneFits atr room f h)
              (uart_loop-IfDelivered atr room new_frame input (omega arith))
      ]

-- With enough fuel the simulator's call returns.
abbrev pub Delivers : ℕ → List ℕ → Option Delivery → Type 0
Delivers room input o = (d : Delivery) × (o ≡ some d) × IsDelivered room input d

turn-Delivers :
    (room : ℕ) (input rest : List ℕ) (turn : LineResult) (next : Option Delivery)
    → length rest < length input
    → DoneFits room turn
    → Delivers room rest next
    → Delivers room input (after_turn turn rest next)
unfolding after_turn
turn-Delivers room input rest (returns event text) next shorter h g =
    (record { event = event; rest = rest; printed = text }, refl, (inr shorter, h))
turn-Delivers room input rest (next_line text) next shorter h (d, e, (inl down, small)) =
    (after_printing text d, ground (arith, e), (inl down, small))
turn-Delivers room input rest (next_line text) next shorter h (d, e, (inr less, small)) =
    (after_printing text d, ground (arith, e), (inr (omega (arith, less, shorter)), small))

receive_loop-Delivers :
    (fuel room : ℕ) (input : List ℕ)
    → length input < fuel
    → Delivers room input (receive_loop fuel room input)
unfolding receive_loop
receive_loop-Delivers zero room input h = absurd (omega (arith, h))
receive_loop-Delivers (suc fuel) room [] h =
    (record { event = link_down; rest = []; printed = [] }, refl, (inl refl, tt))
receive_loop-Delivers (suc fuel) room (c ∷ input) h =
    let (line, rest) = fgets 2047 (c ∷ input) in
    turn-Delivers room (c ∷ input) rest (take_line room (trim (c_string line)))
      (receive_loop fuel room rest) (fgets_step 2046 c input)
      (take_line-DoneFits room (trim (c_string line)))
      (receive_loop-Delivers fuel room rest (omega (arith, h, fgets_step 2046 c input)))

pub hal_card_receive-Delivers :
    (room : ℕ) (input : List ℕ) → 1 ≤ room → Delivers room input (hal_card_receive room input)
unfolding hal_card_receive
hal_card_receive-Delivers room input h =
    let (d, e, p) = receive_loop-Delivers (length input + 1) room input (omega arith) in
    (d, ground (arith, e), p)

pub uart_card_receive-IfDelivered :
    (atr : List ℕ) (room : ℕ) (input : List ℕ)
    → 1 ≤ room
    → IfDelivered room input (uart_card_receive atr room input)
unfolding uart_card_receive new_frame
uart_card_receive-IfDelivered atr room input h =
    if-split (IfDelivered room input) (room == 0) (λ e. absurd (ground (arith, e)))
      (λ e. uart_loop-IfDelivered atr room new_frame input (omega arith))
