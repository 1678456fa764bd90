-- ===== src/Scv1/Memory.antt =====
-- hal_arm_nvm.c: the reads and writes of the SCV1 chip's data memory. The two regions lie at fixed addresses;
-- each is the list of its bytes.
use native_smart_card_os.Hal.{HalError, HalResult, Nvm, Region, set_region}
use native_smart_card_os.OsMem.{os_memcpy_checked}
use native_smart_card_os.Common.{
  Bool, List, Option, drop, if◌then◌else◌, leb, none, not, some, ℕ, ◌*◌, ◌+◌, ◌==◌,
}

abbrev pub scv1_eeprom_size : ℕ
scv1_eeprom_size = 16 * 1024

abbrev pub scv1_dflash_size : ℕ
scv1_dflash_size = 256 * 1024

-- `region_base`, by what it returns; the size that it hands out is that of `scv1_nvm_size`.
unfoldable pub scv1_region_base : Nvm → Region → List ℕ
scv1_region_base nvm Region.eeprom = nvm.eeprom_bytes
scv1_region_base nvm Region.flash = nvm.flash_bytes

unfoldable pub scv1_nvm_size : Region → ℕ
scv1_nvm_size Region.eeprom = scv1_eeprom_size
scv1_nvm_size Region.flash = scv1_dflash_size

unfoldable pub scv1_nvm_page_size : Region → ℕ
scv1_nvm_page_size Region.eeprom = 4
scv1_nvm_page_size Region.flash = 256

unfoldable pub scv1_in_range : ℕ → ℕ → ℕ → Bool
scv1_in_range size offset len = leb (offset + len) size

-- What `os_memcpy_checked` leaves of a buffer, or the error of a copy that it refuses.
abbrev pub copied : Bool × List ℕ → HalResult (List ℕ)
copied (done, region) = if done then HalResult.ok region else HalResult.err HalError.io

-- The buffer after a read; `none` is a NULL one.
unfoldable pub scv1_nvm_read : Nvm → Region → ℕ → Option (List ℕ) → ℕ → HalResult (List ℕ)
unfolding scv1_in_range scv1_region_base scv1_nvm_size
scv1_nvm_read nvm region offset none len = HalResult.err HalError.param
scv1_nvm_read nvm region offset (some dst) len =
    let base = scv1_region_base nvm region in
    if len == 0
    then HalResult.ok dst
    else if not nvm.powered
    then HalResult.err HalError.power
    else if not (scv1_in_range (scv1_nvm_size region) offset len)
    then HalResult.err HalError.range
    else copied (os_memcpy_checked dst 0 len (some (drop offset base)) len)

-- The chip after the copy of a write.
abbrev pub stored : Nvm → Region → HalResult (List ℕ) → HalResult Nvm
stored nvm region (HalResult.err e) = HalResult.err e
stored nvm region (HalResult.ok bytes) = HalResult.ok (set_region nvm region bytes)

-- The new chip; on an error it is the old one.
unfoldable pub scv1_nvm_write : Nvm → Region → ℕ → Option (List ℕ) → ℕ → HalResult Nvm
unfolding scv1_in_range scv1_region_base scv1_nvm_size
scv1_nvm_write nvm region offset none len = HalResult.err HalError.param
scv1_nvm_write nvm region offset (some src) len =
    let base = scv1_region_base nvm region in
    if len == 0
    then HalResult.ok nvm
    else if not nvm.powered
    then HalResult.err HalError.power
    else if not (scv1_in_range (scv1_nvm_size region) offset len)
    then HalResult.err HalError.range
    else stored nvm region (copied (os_memcpy_checked base offset len (some src) len))

unfoldable pub scv1_nvm_sync : Nvm → HalResult (Unit {0})
scv1_nvm_sync nvm = if not nvm.powered then HalResult.err HalError.power else HalResult.ok tt
