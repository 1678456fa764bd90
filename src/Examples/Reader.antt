-- ===== src/Examples/Reader.antt =====
-- The links to the reader, with a command and with lines of text.
use native_smart_card_os.Examples.Card.{rooted_card, rooted_card-IsCard}
use native_smart_card_os.Link.Echo.{delivered, receive-send}
use native_smart_card_os.Link.Session.{run_card_loop, run_card_loop-Ends, simulator_link, Ends}
use native_smart_card_os.Link.Simulator.{hal_card_receive, hal_card_send}
use native_smart_card_os.Link.Uart.{uart_card_receive, uart_card_send}
use native_smart_card_os.Common.{List, [], arith, codes, ℕ, ◌++◌, ◌∷◌, ◌≡◌}

abbrev select_mf : List ℕ
select_mf = 0x00 ∷ 0xA4 ∷ 0x00 ∷ 0x0C ∷ []

receive-send_example :
    (hal_card_receive 261 (hal_card_send select_mf ++ codes "#") ≡ delivered select_mf (codes "#"))
    × (uart_card_receive [] 261 (uart_card_send select_mf ++ codes "#")
        ≡ delivered select_mf (codes "#"))
    × (hal_card_send select_mf ≡ uart_card_send select_mf)
receive-send_example =
    receive-send [] 261 select_mf (codes "#")
      ((omega arith, (omega arith, (omega arith, (omega arith, tt)))), omega arith) (omega arith)
      (omega arith)

-- A line with separators, small and capital digits, and white space at its end.
abbrev data_line : List ℕ
data_line = codes "00:a4 0C0 "

-- A comment, a command, a reset, and a line that is not hex.
abbrev reader_text : List ℕ
reader_text =
    codes "#" ++ 10 ∷ (codes "00A4000C" ++ 10 ∷ (codes ".reset" ++ 10 ∷ (codes "0G" ++ 10 ∷ [])))

run_card_loop-Ends_example :
    Ends simulator_link rooted_card (run_card_loop simulator_link 40 rooted_card reader_text)
run_card_loop-Ends_example =
    run_card_loop-Ends simulator_link 40 rooted_card reader_text (omega arith) rooted_card-IsCard
