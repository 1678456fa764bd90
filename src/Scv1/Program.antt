-- ===== src/Scv1/Program.antt =====
-- src/hal/arm-scv1/card_main.c and hal_arm_platform.c: a run of the firmware, from power-up to
-- power-down.
use native_smart_card_os.Hal.{Nvm}
use native_smart_card_os.Kernel.{ScosStatus, scos_init, scos_ok}
use native_smart_card_os.Link.Session.{Run, run_card_loop, uart_link}
use native_smart_card_os.Machine.{Machine, ScosKernel, fs_error}
use native_smart_card_os.Rom.Loop.{scv1_sram_size}
use native_smart_card_os.Scv1.Memory.{scv1_dflash_size, scv1_eeprom_size}
use native_smart_card_os.Scv1.Power.{Images, scv1_nvm_power_off, scv1_nvm_power_on}
use native_smart_card_os.Vcard.Program.{zero_kernel, zero_superblock}
use native_smart_card_os.Common.{
  Bool, List, Option, [], codes, if◌then◌else◌, length, ltb, none, some, suc, zero, ℕ, ◌%◌, ◌*◌,
  ◌++◌, ◌+◌, ◌/◌, ◌==◌, ◌∷◌,
}

abbrev pub scv1_atr_bytes : List ℕ
scv1_atr_bytes = 0x3B ∷ 0x94 ∷ 0x11 ∷ 0x00 ∷ 0x53 ∷ 0x43 ∷ 0x4F ∷ 0x53 ∷ []

abbrev pub crlf : List ℕ
crlf = 13 ∷ 10 ∷ []

-- The two loops of `put_u32_dec`: the first takes the digits off the number, at most as many as fit in
-- `buf`, and the second prints them the other way round.
unfoldable pub digits : ℕ → ℕ → List ℕ → List ℕ
digits zero v out = out
digits (suc room) v out =
    let rest = digits room (v / 10) ((b'0' + v % 10) ∷ out) in if ltb 0 v then rest else out

unfoldable pub put_u32_dec : ℕ → List ℕ
unfolding digits
put_u32_dec v = if v == 0 then codes "0" else digits 12 v []

abbrev pub scv1_osflash_size : ℕ
scv1_osflash_size = 55 * 1024

unfoldable pub scos_version_string : List ℕ
scos_version_string = codes "0.1.0"

-- What `semihost_available` says is the argument.
unfoldable pub banner : Bool → List ℕ
unfolding put_u32_dec scos_version_string
banner available =
    codes "SmartCard OS on SCV1 (ARM Cortex-M3)"
    ++ crlf
    ++ codes "Version: "
    ++ scos_version_string
    ++ crlf
    ++ codes "OSFLASH 0x00002000  "
    ++ put_u32_dec (scv1_osflash_size / 1024)
    ++ codes " KB"
    ++ crlf
    ++ codes "EEPROM  0x00010000  "
    ++ put_u32_dec (scv1_eeprom_size / 1024)
    ++ codes " KB"
    ++ crlf
    ++ codes "DFLASH  0x00014000  "
    ++ put_u32_dec (scv1_dflash_size / 1024)
    ++ codes " KB"
    ++ crlf
    ++ codes "SRAM    0x20000000  "
    ++ put_u32_dec (scv1_sram_size / 1024)
    ++ codes " KB"
    ++ crlf
    ++ codes "ATR: 3B 94 11 00 53 43 4F 53"
    ++ crlf
    ++ codes "Started by the SCV1 boot ROM from an ACTIVE OS slot."
    ++ crlf
    ++ (if available
        then codes "NVM: persistent (semihosting)"
        else codes "NVM: volatile (no semihosting host)")
    ++ crlf
    ++ codes "Waiting for APDU..."
    ++ crlf

-- What lasts from one run of the firmware to the next: the files of the debugger's host, and the chip's
-- data memory.
pub record Board : Type 0 where
  pub images : Images
  pub nvm : Nvm

-- What a run leaves: the code that `semihost_exit` is given, the board, and what the card printed.
pub record Halt : Type 0 where
  pub code : ℕ
  pub board : Board
  pub output : List ℕ

-- `hal_shutdown`, and the end of `main`.
unfoldable pub power_down : Images → List ℕ → Run → Halt
power_down images printed r =
    let (kept, nvm) = scv1_nvm_power_off images r.machine.store.nvm in
    record {
      code = 0;
      board = record { images = kept; nvm = nvm };
      output = printed ++ r.output ++ codes "card powered down" ++ crlf;
    }

-- Where the firmware is when the reader's text is used up: it has halted, or it waits in the card loop for the
-- reader, with the chip powered.
pub data Stop : Type 0 where
  halts : Halt → Stop
  waits : Machine → Stop

-- The card serves the reader until it disconnects.
unfoldable pub serve_uart : Images → List ℕ → Machine → List ℕ → Option Stop
unfolding banner power_down
serve_uart images warning m input =
    elim (run_card_loop (uart_link scv1_atr_bytes) (length input + 1) m input) [
      | none ↦ none
      | some r ↦
          if r.returned
          then some (halts (power_down images (warning ++ banner images.host.available) r))
          else some (waits r.machine)
    ]

-- A fatal error: the firmware halts, and the chip is not powered down.
unfoldable pub fatal : Images → Machine → Halt
fatal images m = record {
  code = 1;
  board = record { images = images; nvm = m.store.nvm };
  output = codes "fatal: OS init failed" ++ crlf;
}

unfoldable pub mount_warning : ScosKernel → List ℕ
mount_warning k = elim k.lifecycle [
  | fs_error ↦ codes "WARNING: filesystem did not mount; answering 6581" ++ crlf
  | _ ↦ []
]

-- `main` behind `scos_init`. An `scos_init` that fails is fatal, unless the file system is what fails.
unfoldable pub after_scos_init : Images → List ℕ → ScosStatus → Machine → Option Stop
unfolding serve_uart fatal mount_warning
after_scos_init images input scos_ok m = serve_uart images (mount_warning m.kernel) m input
after_scos_init images input _ m = elim m.kernel.lifecycle [
  | fs_error ↦ serve_uart images (mount_warning m.kernel) m input
  | _ ↦ some (halts (fatal images m))
]

-- RAM when C starts: all is zero.
abbrev pub started_machine : Nvm → Machine
started_machine nvm = record {
  kernel = zero_kernel;
  store = record { nvm = nvm; sb = zero_superblock };
}

-- `main`. Of `hal_init`, which always succeeds, the memory's power-up matters here.
unfoldable pub firmware_main : Board → List ℕ → Option Stop
unfolding after_scos_init
firmware_main b input =
    let (st, m) = scos_init (started_machine (scv1_nvm_power_on b.images b.nvm)) in
    after_scos_init b.images input st m
