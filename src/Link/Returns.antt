-- ===== src/Link/Returns.antt =====
-- card_loop.c over a link: when `scos_card_loop` returns.
use mathlib.Core.Path.{subst}
use native_smart_card_os.Kernel.{link_down, scos_apdu_cmd_max}
use native_smart_card_os.Kernel.Loop.{IsCard}
use native_smart_card_os.Link.{Delivery, LineResult, after_printing, after_turn, next_line, returns}
use native_smart_card_os.Link.Delivered.{IfDelivered, hal_card_receive-Delivers}
use native_smart_card_os.Link.Session.{
  CardLink, Run, after_output, card_turn_lem, is_down, run_card_loop, send_all, simulator_link,
  uart_link,
}
use native_smart_card_os.Link.Uart.{
  Frame, is_control_at, is_line_end, new_frame, scan_char, take_frame, uart_card_receive, uart_loop,
}
use native_smart_card_os.Machine.{Machine}
use native_smart_card_os.Common.{
  Bool-cases, List, Option, [], arith, codes, false, inl, inr, length, refl, some, suc, true, zero,
  ℕ, ◌++◌, ◌<◌, ◌∷◌, ◌≡◌, ◌⊎◌,
}

-- A text on which a call of the link returns, with the link down or with such a text left.
abbrev pub Hands : (List ℕ → Type 0) → Option Delivery → Type 0
Hands ready o = (d : Delivery) × (o ≡ some d) × ((is_down d.event ≡ true) ⊎ ready d.rest)

-- The loop has run to its end and returned.
abbrev Returned : Option Run → Type 0
Returned o = (r : Run) × (o ≡ some r) × (r.returned ≡ true)

module _ (link : CardLink) (ready : List ℕ → Type 0)
    (hands : (input : List ℕ) → ready input → Hands ready (link.receive input)) where
  -- The loop returns, on a text on which no call waits.
  pub run_card_loop-returns :
      (fuel : ℕ) (m : Machine) (input : List ℕ)
      → length input < fuel
      → IsCard m
      → ready input
      → Returned (run_card_loop link fuel m input)
  unfolding run_card_loop
  run_card_loop-returns zero m input small card h = absurd (omega (arith, small))
  run_card_loop-returns (suc fuel) m input small card h =
      let (d, e, next) = hands input h in
      let delivered : IfDelivered scos_apdu_cmd_max input (some d) =
        subst (IfDelivered scos_apdu_cmd_max input) e (link.delivers input) in
      elim (Bool-cases (is_down d.event)) [
        | inl down ↦ (
          record { machine = m; output = d.printed; returned = true },
          ground (arith, e, down),
          refl,
        )
        | inr up ↦
            let (n, sent, turn, good, size) = card_turn_lem m d.event card delivered.1 in
            let less : length d.rest < length input = ground (arith, up, delivered) in
            let left : ready d.rest = ground (arith, up, next) in
            let (r, f, done) =
              run_card_loop-returns fuel n d.rest (omega (arith, less, small)) good left in
            (after_output (d.printed ++ send_all link sent) r, ground (arith, e, up, turn, f), done)
      ]

-- Every text is served to its end by the simulator, whose input ends.
pub simulator-returns :
    (fuel : ℕ) (m : Machine) (input : List ℕ)
    → length input < fuel
    → IsCard m
    → Returned (run_card_loop simulator_link fuel m input)
simulator-returns fuel m input small card =
    run_card_loop-returns simulator_link (λ text. Unit)
      (λ text h.
        let (d, e, good) = hal_card_receive-Delivers scos_apdu_cmd_max text (omega arith) in
        (d, e, inr tt))
      fuel m input small card tt

-- The line that asks the card to power down.
abbrev pub quit_line : List ℕ
quit_line = codes ".quit" ++ 10 ∷ []

-- A text with that line, read from the start of a line.
abbrev pub Quits : List ℕ → Type 0
Quits input =
    (rest : List ℕ) × ((input ≡ quit_line ++ rest)
      ⊎ ((before : List ℕ) × (input ≡ before ++ 10 ∷ (quit_line ++ rest))))

turn-Hands :
    (turn : LineResult) (rest : List ℕ) (next : Option Delivery)
    → Quits rest
    → Hands Quits next
    → Hands Quits (after_turn turn rest next)
unfolding after_turn
turn-Hands (returns event text) rest next h g =
    (record { event = event; rest = rest; printed = text }, refl, inr h)
turn-Hands (next_line text) rest next h (d, e, g) = (after_printing text d, ground (arith, e), g)

quit-Hands :
    (atr : List ℕ) (room : ℕ) (rest : List ℕ)
    → Hands Quits (uart_loop atr room new_frame (quit_line ++ rest))
unfolding uart_loop new_frame is_line_end scan_char take_frame after_turn is_control_at
quit-Hands atr room rest = (record { event = link_down; rest = rest; printed = [] }, refl, inl refl)

uart_loop-Hands :
    (atr : List ℕ) (room : ℕ) (f : Frame) (before rest : List ℕ)
    → Hands Quits (uart_loop atr room f (before ++ 10 ∷ (quit_line ++ rest)))
unfolding uart_loop is_line_end
uart_loop-Hands atr room f [] rest =
    turn-Hands (take_frame atr f) (quit_line ++ rest)
      (uart_loop atr room new_frame (quit_line ++ rest)) (rest, inl refl) (quit-Hands atr room rest)
uart_loop-Hands atr room f (c ∷ before) rest =
    let text = before ++ 10 ∷ (quit_line ++ rest) in
    elim (is_line_end c)
      as (λ b. Hands Quits (elim b [
        | false ↦ uart_loop atr room (scan_char room c f) text
        | true ↦ after_turn (take_frame atr f) text (uart_loop atr room new_frame text)
      ])) [
        | false ↦ uart_loop-Hands atr room (scan_char room c f) before rest
        | true ↦
            turn-Hands (take_frame atr f) text (uart_loop atr room new_frame text)
              (rest, inr (before, refl)) (uart_loop-Hands atr room new_frame before rest)
      ]

uart_card_receive-Hands :
    (atr input : List ℕ) → Quits input → Hands Quits (uart_card_receive atr scos_apdu_cmd_max input)
unfolding uart_card_receive
uart_card_receive-Hands atr input (rest, inl e) = rw e (quit-Hands atr scos_apdu_cmd_max rest)
uart_card_receive-Hands atr input (rest, inr (before, e)) =
    rw e (uart_loop-Hands atr scos_apdu_cmd_max new_frame before rest)

-- Over the UART the loop returns on every text with the line ".quit".
pub uart-returns :
    (atr : List ℕ) (fuel : ℕ) (m : Machine) (input : List ℕ)
    → length input < fuel
    → IsCard m
    → Quits input
    → Returned (run_card_loop (uart_link atr) fuel m input)
uart-returns atr fuel m input small card h =
    run_card_loop-returns (uart_link atr) Quits (uart_card_receive-Hands atr) fuel m input small
      card h
