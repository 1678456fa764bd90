-- ===== src/Link.antt =====
-- The reader's side of the card, include/hal/hal.h, as two programs implement it over lines of hex:
-- simulator/transport.c over the standard streams and src/hal/arm-scv1/hal_arm_io.c over a UART.
-- Text is the list of its characters' codes.
pub mod Hex
pub mod Simulator
pub mod Uart
pub mod Scan
pub mod Agree
pub mod RoundTrip
pub mod Echo
pub mod Bounds
pub mod Delivered
pub mod Session
pub mod Returns
use mathlib.Core.Option
use native_smart_card_os.Kernel.{LinkEvent}
use native_smart_card_os.Common.{Option, some, List, ℕ, ◌++◌}

-- What one line of the reader leads to: the next line is read, or the call returns. The text is what the
-- card prints.
pub data LineResult : Type 0 where
  next_line : List ℕ → LineResult
  returns : LinkEvent → List ℕ → LineResult

-- What a call of `hal_card_receive` leaves: its result, the text that is not read yet, and what
-- the card printed.
pub record Delivery : Type 0 where
  pub event : LinkEvent
  pub rest : List ℕ
  pub printed : List ℕ

abbrev pub after_printing : List ℕ → Delivery → Delivery
after_printing text d = record d { printed = text ++ d.printed }

-- The end of a turn of the loop of `hal_card_receive`: what the rest of the loop leaves counts where the
-- loop goes on.
unfoldable pub after_turn : LineResult → List ℕ → Option Delivery → Option Delivery
after_turn (next_line text) rest next = Option.map (after_printing text) next
after_turn (returns event text) rest next =
    some (record { event = event; rest = rest; printed = text })
