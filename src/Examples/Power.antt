-- ===== src/Examples/Power.antt =====
-- The power cycles, with a virtual chip that is just large enough.
use native_smart_card_os.Examples.Card.{rooted, rooted_card-IsTree}
use native_smart_card_os.Kernel.Start.{ComesUp}
use native_smart_card_os.Link.Returns.{quit_line}
use native_smart_card_os.Scv1.Cycle.{scv1_nvm_power_on-kept}
use native_smart_card_os.Scv1.Power.{Images, scv1_nvm_power_on}
use native_smart_card_os.Scv1.Program.{Board, Halt, firmware_main, halts, started_machine}
use native_smart_card_os.Scv1.Restarts.{IsBoard, IsKept, firmware_main-After, no_run}
use native_smart_card_os.Vcard.Power.{
  Host, VcardConfig, clamp_size, vcard_configure, vcard_power_on,
}
use native_smart_card_os.Vcard.Program.{Exit, powered_machine, run_card}
use native_smart_card_os.Vcard.Sessions.{After, IsFresh, no_session, run_card-After}
use native_smart_card_os.Common.{
  List, [], arith, codes, false, inl, inr, none, refl, some, sym, true, ℕ, ◌++◌, ◌∷◌, ◌≡◌,
}

abbrev small_chip : VcardConfig
small_chip = record {
  state_dir = some (codes "card");
  eeprom_size = 656;
  flash_size = 112;
  rng_seed = 1;
  quiet = true;
}

abbrev empty_host : Host
empty_host = record { eeprom_image = none; flash_image = none; writable = true }

empty_host-IsFresh : IsFresh (vcard_configure (some small_chip)) empty_host
unfolding vcard_configure clamp_size
empty_host-IsFresh = record {
  no_eeprom = refl;
  no_flash = refl;
  table_fits = omega arith;
  files_fit = omega arith;
}

run_card-After_example :
    ComesUp (powered_machine (vcard_power_on (vcard_configure (some small_chip)) empty_host))
    × ((x : Exit) × (run_card small_chip empty_host (codes "00A4000C") ≡ some x)
        × (x.code ≡ 0)
        × After small_chip empty_host x.host)
run_card-After_example =
    run_card-After small_chip empty_host empty_host (codes "00A4000C") empty_host-IsFresh no_session

abbrev no_debugger : Images
no_debugger = record {
  host = record { available = false; writable = false };
  eeprom_file = none;
  flash_file = none;
}

-- A board with a file tree in its memory, and without a debugger's host.
abbrev rooted_board : Board
rooted_board = record { images = no_debugger; nvm = record (rooted.nvm) { powered = false } }

rooted_board-IsBoard : IsBoard rooted_board
rooted_board-IsBoard = (
  inl (
    rooted,
    rooted_card-IsTree,
    sym (scv1_nvm_power_on-kept no_debugger rooted false rooted_card-IsTree (inl refl)),
  ),
  inl refl,
)

-- A command, and the line that asks for a power-down.
abbrev quitting_text : List ℕ
quitting_text = codes "00A4000C" ++ 10 ∷ quit_line

firmware_main-After_example :
    ComesUp (started_machine (scv1_nvm_power_on rooted_board.images rooted_board.nvm))
    × ((h : Halt) × (firmware_main rooted_board quitting_text ≡ some (halts h))
        × (h.code ≡ 0)
        × IsKept h.board)
firmware_main-After_example =
    firmware_main-After rooted_board rooted_board quitting_text rooted_board-IsBoard no_run
      ([], inr (codes "00A4000C", refl))
