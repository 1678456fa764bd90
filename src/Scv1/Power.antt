-- ===== src/Scv1/Power.antt =====
-- hal_arm_nvm.c: `scv1_nvm_power_on` and `scv1_nvm_power_off`.
use native_smart_card_os.Hal.{Nvm}
use native_smart_card_os.Rom.Semihost.{Debugger, semihost_load, semihost_store}
use native_smart_card_os.Common.{
  Bool, List, Option, false, get_or, if◌then◌else◌, length, ltb, none, not, replicate, some, splice,
  true, ℕ, ◌&&◌, ◌-◌, ◌==◌, ◌||◌,
}

-- The files "card_eeprom.bin" and "card_flash.bin" of the debugger's host.
pub record Images : Type 0 where
  pub host : Debugger
  pub eeprom_file : Option (List ℕ)
  pub flash_file : Option (List ℕ)

-- What a load leaves: whether more than zero bytes came, and the region with its tail erased then.
abbrev pub fill_tail : Option ℕ × List ℕ → Bool × List ℕ
fill_tail (none, region) = (false, region)
fill_tail (some n, region) =
    if ltb 0 n
    then (true, splice n (replicate (length region - n) 0xFF) region)
    else (false, region)

unfoldable pub load_region : Debugger → Option (List ℕ) → List ℕ → Bool × List ℕ
load_region host image region = fill_tail (semihost_load host image region)

-- "SCOS" at the start of EEPROM.
unfoldable pub has_fs : List ℕ → Bool
has_fs region =
    get_or region 0 0 == b'S'
    && get_or region 1 0 == b'C'
    && get_or region 2 0 == b'O'
    && get_or region 3 0 == b'S'

abbrev pub erase_region : List ℕ → List ℕ
erase_region region = replicate (length region) 0xFF

unfoldable pub scv1_nvm_power_on : Images → Nvm → Nvm
unfolding load_region has_fs
scv1_nvm_power_on images nvm =
    let (eeprom_loaded, e) = load_region images.host images.eeprom_file nvm.eeprom_bytes in
    let (flash_loaded, f) = load_region images.host images.flash_file nvm.flash_bytes in
    if eeprom_loaded || has_fs e
    then record { eeprom_bytes = e; flash_bytes = f; powered = true }
    else record {
      eeprom_bytes = erase_region e;
      flash_bytes = (if flash_loaded then f else erase_region f);
      powered = true;
    }

unfoldable pub scv1_nvm_power_off : Images → Nvm → Images × Nvm
scv1_nvm_power_off images nvm = if not nvm.powered then (images, nvm) else (
  record images {
    eeprom_file = semihost_store images.host images.eeprom_file nvm.eeprom_bytes;
    flash_file = semihost_store images.host images.flash_file nvm.flash_bytes;
  },
  record nvm { powered = false },
)
