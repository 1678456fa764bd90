-- ===== src/Scv1/Restarts.antt =====
-- card_main.c: the firmware that is started again and again on one board.
use mathlib.Core.Path.{subst}
use native_smart_card_os.Hal.{Nvm}
use native_smart_card_os.Kernel.{scos_apdu_cmd_max, scos_apdu_rsp_max}
use native_smart_card_os.Kernel.Loop.{IsCard}
use native_smart_card_os.Kernel.Start.{ComesUp, scos_init-IsCard}
use native_smart_card_os.Link.Returns.{Quits, uart-returns}
use native_smart_card_os.Link.Session.{Run, run_card_loop-Ends, uart_link}
use native_smart_card_os.Machine.{Machine}
use native_smart_card_os.Rom.Semihost.{Debugger, semihost_load-full, semihost_store}
use native_smart_card_os.Scv1.Cycle.{scv1_nvm_power_on-kept, stored-has_fs}
use native_smart_card_os.Scv1.Power.{
  Images, has_fs, load_region, scv1_nvm_power_off, scv1_nvm_power_on,
}
use native_smart_card_os.Scv1.Program.{
  Board, Halt, Stop, after_scos_init, banner, firmware_main, halts, mount_warning, power_down,
  scv1_atr_bytes, serve_uart, started_machine,
}
use native_smart_card_os.Store.{Store}
use native_smart_card_os.Tree.Invariant.{IsTree}
use native_smart_card_os.Tree.Start.{IsChip}
use native_smart_card_os.Common.{
  ap, Bool-cases, List, Option, arith, false, inl, inr, length, length-replicate, ltb, refl, some,
  splice-nil, sym, true, ℕ, ◌++◌, ◌+◌, ◌-◌, ◌∙◌, ◌≡◌, ◌⊎◌,
}

-- The debugger's host does not answer, or it lets files be opened for writing.
abbrev pub Keeps : Debugger → Type 0
Keeps host = (host.available ≡ false) ⊎ ((host.available ≡ true) × (host.writable ≡ true))

-- A file that holds what the region holds changes nothing.
load_itself :
    (host : Debugger) (xs : List ℕ)
    → host.available ≡ true
    → load_region host (some xs) xs ≡ (ltb 0 (length xs), xs)
unfolding load_region
load_itself host xs on =
    let no_tail : length xs - length xs ≡ 0 = omega arith in
    rw (semihost_load-full host xs xs on refl) (elim (Bool-cases (ltb 0 (length xs))) [
      | inl full ↦ rw no_tail (ground (arith, full, splice-nil (length xs) xs))
      | inr empty ↦ ground (arith, empty)
    ])

-- Without a debugger's host the files stay as they are.
power_off-off :
    (images : Images) (nvm : Nvm)
    → nvm.powered ≡ true
    → images.host.available ≡ false
    → scv1_nvm_power_off images nvm ≡ (images, record nvm { powered = false })
unfolding scv1_nvm_power_off semihost_store
power_off-off images nvm powered off = ground (arith, powered, off)

-- What the files and memory give at the next power-up.
abbrev next_power_on : Images × Nvm → Nvm
next_power_on both = scv1_nvm_power_on both.0 both.1

power_cycle-saves :
    (images : Images) (nvm : Nvm)
    → nvm.powered ≡ true
    → has_fs nvm.eeprom_bytes ≡ true
    → images.host.available ≡ true
    → images.host.writable ≡ true
    → next_power_on (scv1_nvm_power_off images nvm) ≡ nvm
unfolding scv1_nvm_power_on scv1_nvm_power_off semihost_store
power_cycle-saves images nvm powered there on writable = ground (
  arith,
  powered,
  there,
  on,
  writable,
  load_itself images.host nvm.eeprom_bytes on,
  load_itself images.host nvm.flash_bytes on,
)

-- A power cycle keeps a file tree, whatever the files held before.
power_cycle :
    (images : Images) (s : Store)
    → Keeps images.host
    → IsTree s
    → next_power_on (scv1_nvm_power_off images s.nvm) ≡ s.nvm
power_cycle images s (inl off) tree =
    ap next_power_on (power_off-off images s.nvm tree.stored.wellformed.is_powered off)
    ∙ scv1_nvm_power_on-kept images s false tree (inl off)
power_cycle images s (inr saves) tree =
    power_cycle-saves images s.nvm tree.stored.wellformed.is_powered (stored-has_fs s tree.stored)
      saves.0 saves.1

-- A board from which a card comes up.
abbrev pub IsBoard : Board → Type 0
IsBoard b = IsChip (scv1_nvm_power_on b.images b.nvm) × Keeps b.images.host

-- The next power-up finds the data memory as it was left.
abbrev pub IsKept : Board → Type 0
IsKept b = scv1_nvm_power_on b.images b.nvm ≡ record (b.nvm) { powered = true }

-- What a run leaves: it halts with code 0, and the card comes up again.
abbrev Good : Option Stop → Type 0
Good o = (h : Halt) × (o ≡ some (halts h)) × (h.code ≡ 0) × IsBoard h.board × IsKept h.board

power_off-host :
    (images : Images) (nvm : Nvm) → (scv1_nvm_power_off images nvm).0.host ≡ images.host
unfolding scv1_nvm_power_off
power_off-host images nvm = ground arith

powered_off :
    (images : Images) (nvm : Nvm)
    → nvm.powered ≡ true
    → record ((scv1_nvm_power_off images nvm).1) { powered = true } ≡ nvm
unfolding scv1_nvm_power_off
powered_off images nvm on = ground (arith, on)

power_down-Good :
    (images : Images) (printed : List ℕ) (r : Run)
    → Keeps images.host
    → IsTree r.machine.store
    → (power_down images printed r).code ≡ 0
      × IsBoard (power_down images printed r).board
      × IsKept (power_down images printed r).board
unfolding power_down
power_down-Good images printed r keeps tree = (
  refl,
  (
    inl (r.machine.store, tree, sym (power_cycle images r.machine.store keeps tree)),
    subst Keeps (sym (power_off-host images r.machine.store.nvm)) keeps,
  ),
  power_cycle images r.machine.store keeps tree
      ∙ sym (powered_off images r.machine.store.nvm tree.stored.wellformed.is_powered),
)

serve_uart-Good :
    (images : Images) (warning : List ℕ) (m : Machine) (input : List ℕ)
    → Keeps images.host
    → IsCard m
    → Quits input
    → Good (serve_uart images warning m input)
unfolding serve_uart
serve_uart-Good images warning m input keeps card quits =
    let (r, e, end, size, over) =
      run_card_loop-Ends (uart_link scv1_atr_bytes) (length input + 1) m input (omega arith) card in
    let (r', e', done) =
      uart-returns scv1_atr_bytes (length input + 1) m input (omega arith) card quits in
    let printed = warning ++ banner images.host.available in
    let (zero_code, board, kept) = power_down-Good images printed r keeps end.tree in
    (power_down images printed r, ground (arith, e, e', done), zero_code, board, kept)

board-ComesUp :
    (b : Board) → IsBoard b → ComesUp (started_machine (scv1_nvm_power_on b.images b.nvm))
board-ComesUp b (chip, keeps) =
    scos_init-IsCard (started_machine (scv1_nvm_power_on b.images b.nvm))
      (length-replicate {A = ℕ} scos_apdu_cmd_max 0, length-replicate {A = ℕ} scos_apdu_rsp_max 0)
      chip

firmware_main-Good :
    (b : Board) (input : List ℕ) → IsBoard b → Quits input → Good (firmware_main b input)
unfolding firmware_main after_scos_init
firmware_main-Good b input (chip, keeps) quits =
    let (m, e, up, card, size) = board-ComesUp b (chip, keeps) in
    let (h, f, zero_code, board, kept) =
      serve_uart-Good b.images (mount_warning m.kernel) m input keeps card quits in
    (h, ground (arith, e, f), zero_code, board, kept)

-- The boards that runs of the firmware lead to, each with any text of the reader that asks for a power-down.
pub data After (b : Board) : Board → Type 0 where
  no_run : After b b
  run :
      (before : Board) (input : List ℕ) (h : Halt)
      → After b before
      → Quits input
      → firmware_main before input ≡ some (halts h)
      → After b h.board

after-IsBoard : (b c : Board) → IsBoard b → After b c → IsBoard c
after-IsBoard b c good no_run = good
after-IsBoard b c good (run before input h path quits e) =
    let (x, f, zero_code, again, kept) =
      firmware_main-Good before input (after-IsBoard b before good path) quits in
    ground (arith, e, f, again)

-- On a board from which a card comes up, and with a debugger's host that does not answer or that lets
-- files be written, the firmware serves any text of the reader with the line ".quit" in it, however many runs with
-- such texts went before and whatever else their readers sent: at power-up `scos_init` reports no error and the card
-- is operational with a well-formed file tree, the run ends, with code 0, and memory keeps what it holds
-- from one run to the next.
pub firmware_main-After :
    (b c : Board) (input : List ℕ)
    → IsBoard b
    → After b c
    → Quits input
    → ComesUp (started_machine (scv1_nvm_power_on c.images c.nvm))
      × ((h : Halt) × (firmware_main c input ≡ some (halts h)) × (h.code ≡ 0) × IsKept h.board)
firmware_main-After b c input good path quits =
    let up = after-IsBoard b c good path in
    let (h, e, zero_code, again, kept) = firmware_main-Good c input up quits in
    (board-ComesUp c up, (h, e, zero_code, kept))
