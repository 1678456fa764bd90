-- ===== src/Examples/Rom.antt =====
-- The boot ROM over the slot of the boot loader's examples.
use mathlib.Core.Path.{subst}
use native_smart_card_os.Boot.{boot_hdr_parse, boot_slot_check}
use native_smart_card_os.Examples.Loader.{active_slot, loaded_slot}
use native_smart_card_os.Kernel.{LinkEvent, received}
use native_smart_card_os.Rom.Decision.{IsStarted, Reach, Reach-IsStarted, power_comes, round}
use native_smart_card_os.Rom.Loop.{
  Loader, SlotFiles, bootsel_asserted, in_loader, initial_loader, loader_round, may_boot, power_up,
  slot_power_on,
}
use native_smart_card_os.Rom.Semihost.{semihost_load}
use native_smart_card_os.Common.{[], false, none, refl, replicate, some, true, ◌∷◌, ◌≡◌}

abbrev no_files : SlotFiles
no_files = record {
  host = record { available = false; writable = false };
  osflash_file = none;
  oshdr_file = none;
}

-- A chip without files comes up in the loader, and RESTART follows.
abbrev blank_loader : Loader
blank_loader = initial_loader no_files (replicate 16 0xFF, replicate 16 0xFF)

comes_up : power_up no_files false (replicate 16 0x00) (replicate 16 0x00) ≡ in_loader blank_loader
unfolding power_up slot_power_on semihost_load may_boot bootsel_asserted boot_slot_check
    boot_hdr_parse
comes_up = refl

in_the_loader : Reach no_files (replicate 16 0x00) (replicate 16 0x00) (in_loader blank_loader)
in_the_loader =
    subst (Reach no_files (replicate 16 0x00) (replicate 16 0x00)) comes_up (power_comes false)

abbrev restart_command : LinkEvent
restart_command = received (0x80 ∷ 0xF0 ∷ 0x00 ∷ 0x00 ∷ [])

Reach-IsStarted_example : IsStarted (loader_round blank_loader restart_command false)
Reach-IsStarted_example =
    Reach-IsStarted no_files (replicate 16 0x00) (replicate 16 0x00)
      (loader_round blank_loader restart_command false)
      (round blank_loader restart_command false in_the_loader)

abbrev with_files : SlotFiles
with_files = record {
  host = record { available = true; writable = true };
  osflash_file = some active_slot.osflash;
  oshdr_file = some active_slot.oshdr;
}

abbrev loaded : Loader
loaded = record { ctx = loaded_slot; dirty = true; files = with_files }
