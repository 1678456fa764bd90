-- ===== src/Hal.antt =====
-- The non-volatile memory of the hardware abstraction layer: include/hal/hal.h, as
-- src/hal/simulator/hal_sim_nvm.c implements it over the two regions of simulator/virtual_card.c.
-- A region is the list of its bytes, and its length is the region's size.
use native_smart_card_os.Common.{
  Bool, List, [], if◌then◌else◌, leb, length, slice, splice, ℕ, ◌+◌, ◌==◌,
}

pub data Region : Type 0 where
  eeprom flash : Region

-- `enum hal_status`, the values that the memory calls return.
pub data HalError : Type 0 where
  param range power io : HalError

pub data HalResult (A : Type 0) : Type 0 where
  ok : A → HalResult A
  err : HalError → HalResult A

-- The chip: both regions, and whether it is powered.
pub record Nvm : Type 0 where
  pub eeprom_bytes : List ℕ
  pub flash_bytes : List ℕ
  pub powered : Bool

-- `vcard_nvm_base`
unfoldable pub vcard_nvm_base : Nvm → Region → List ℕ
vcard_nvm_base nvm Region.eeprom = nvm.eeprom_bytes
vcard_nvm_base nvm Region.flash = nvm.flash_bytes

unfoldable pub set_region : Nvm → Region → List ℕ → Nvm
set_region nvm Region.eeprom bytes = record nvm { eeprom_bytes = bytes }
set_region nvm Region.flash bytes = record nvm { flash_bytes = bytes }

unfoldable pub hal_nvm_size : Nvm → Region → ℕ
unfolding vcard_nvm_base
hal_nvm_size nvm region = length (vcard_nvm_base nvm region)

-- The sum is taken in 64 bits, which two 32-bit numbers cannot overflow.
unfoldable pub in_range : ℕ → ℕ → ℕ → Bool
in_range size offset len = leb (offset + len) size

unfoldable pub hal_nvm_read : Nvm → Region → ℕ → ℕ → HalResult (List ℕ)
unfolding vcard_nvm_base hal_nvm_size in_range
hal_nvm_read nvm region offset len =
    if len == 0
    then ok []
    else if nvm.powered
    then if in_range (hal_nvm_size nvm region) offset len
      then ok (slice offset len (vcard_nvm_base nvm region))
      else err HalError.range
    else err HalError.power

-- The new chip; on an error it is the old one.
unfoldable pub hal_nvm_write : Nvm → Region → ℕ → List ℕ → HalResult Nvm
unfolding vcard_nvm_base hal_nvm_size in_range set_region
hal_nvm_write nvm region offset src =
    if length src == 0
    then ok nvm
    else if nvm.powered
    then if in_range (hal_nvm_size nvm region) offset (length src)
      then ok (set_region nvm region (splice offset src (vcard_nvm_base nvm region)))
      else err HalError.range
    else err HalError.power

unfoldable pub hal_nvm_sync : Nvm → HalResult (Unit {0})
hal_nvm_sync nvm = if nvm.powered then ok tt else err HalError.power
