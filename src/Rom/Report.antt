-- ===== src/Rom/Report.antt =====
-- boot_main.c: what the boot ROM prints when it stays in the loader, and the jump into the OS.
use native_smart_card_os.Boot.{
  BootHdr, BootSlotState, boot_slot_check, get_le32, slot_active, slot_blank, slot_damaged,
  slot_loaded,
}
use native_smart_card_os.Rom.Loop.{SlotFiles, bootsel_asserted, may_boot, slot_power_on}
use native_smart_card_os.Rom.Semihost.{Debugger}
use native_smart_card_os.Scv1.Program.{crlf, digits, scv1_osflash_size}
use native_smart_card_os.Common.{
  Bool, List, [], codes, false, get_or, if◌then◌else◌, true, ℕ, ◌%◌, ◌++◌, ◌/◌, ◌==◌, ◌∷◌,
}

abbrev pub hex_table : List ℕ
hex_table = codes "0123456789ABCDEF"

unfoldable pub put_hex8 : ℕ → List ℕ
put_hex8 b = get_or hex_table (b / 16 % 16) 0 ∷ get_or hex_table (b % 16) 0 ∷ []

unfoldable pub rom_put_u32 : ℕ → List ℕ
unfolding digits
rom_put_u32 v = if v == 0 then codes "0" else digits 10 v []

unfoldable pub slot_name : BootSlotState → List ℕ
slot_name slot_blank = codes "BLANK (no OS loaded)"
slot_name slot_loaded = codes "LOADED (not activated)"
slot_name slot_active = codes "ACTIVE"
slot_name slot_damaged = codes "DAMAGED (header or image failed CRC)"

abbrev pub shows_image : BootSlotState → Bool
shows_image slot_loaded = true
shows_image slot_active = true
shows_image _ = false

unfoldable pub image_line : BootSlotState → BootHdr → List ℕ
unfolding put_hex8 rom_put_u32
image_line st h =
    if shows_image st
    then codes "Image:   "
      ++ (rom_put_u32 h.image_len
          ++ (codes " bytes, CRC "
              ++ (put_hex8 (h.image_crc / 256 % 256) ++ (put_hex8 (h.image_crc % 256) ++ crlf))))
    else []

-- `banner`
unfoldable pub rom_banner : Debugger → BootSlotState → BootHdr → Bool → List ℕ
unfolding slot_name image_line rom_put_u32
rom_banner host st h strap =
    codes "SCV1 BOOT ROM v1  (mask ROM, 8 KB at 0x00000000)"
    ++ crlf
    ++ codes "OS slot: 0x00002000  "
    ++ rom_put_u32 (scv1_osflash_size / 1024)
    ++ codes " KB"
    ++ crlf
    ++ codes "State:   "
    ++ slot_name st
    ++ crlf
    ++ image_line st h
    ++ (if strap then codes "BOOTSEL: held -- staying in the loader" ++ crlf else [])
    ++ codes "ATR:     3B 94 11 00 42 4F 4F 54"
    ++ crlf
    ++ (if host.available
        then codes "Slot:    persistent (semihosting)"
        else codes "Slot:    volatile (no semihosting host)")
    ++ crlf
    ++ codes "Waiting for loader APDUs (CLA 80)..."
    ++ crlf

-- The registers with which the core leaves the boot ROM.
pub record Registers : Type 0 where
  pub vtor : ℕ
  pub sp : ℕ
  pub pc : ℕ

-- `boot_jump` to an image at a base address.
unfoldable pub boot_jump : ℕ → List ℕ → Registers
boot_jump base osflash = record { vtor = base; sp = get_le32 osflash 0; pc = get_le32 osflash 4 }

-- What `main` prints, by the decision of `power_up`.
unfoldable pub power_up_text : SlotFiles → Bool → List ℕ → List ℕ → List ℕ
unfolding rom_banner may_boot bootsel_asserted slot_power_on
power_up_text files strap osflash oshdr =
    let (code, header) = slot_power_on files osflash oshdr in
    let (st, h) = boot_slot_check header code in
    if may_boot files strap code header
    then codes "SCV1 BOOT ROM: OS slot ACTIVE, starting OS" ++ crlf
    else rom_banner files.host st h (bootsel_asserted files.host strap)
