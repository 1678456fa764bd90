-- ===== src/Scv1/Agree.antt =====
-- hal_arm_nvm.c and hal_sim_nvm.c: the two ports read and write their memory alike.
use native_smart_card_os.Hal.{
  Nvm, Region, hal_nvm_read, hal_nvm_size, hal_nvm_sync, hal_nvm_write, in_range, vcard_nvm_base,
}
use native_smart_card_os.OsMem.{os_memcpy_checked}
use native_smart_card_os.Scv1.Memory.{
  scv1_in_range, scv1_nvm_read, scv1_nvm_size, scv1_nvm_sync, scv1_nvm_write, scv1_region_base,
  scv1_eeprom_size, scv1_dflash_size,
}
use native_smart_card_os.Common.{
  List, [], ◌∷◌, true, sym, length-slice, arith, drop, length, refl, slice, some, splice-whole,
  take-all, ℕ, ◌+◌, ◌≡◌, ◌≤◌,
}

same_base : (nvm : Nvm) (region : Region) → scv1_region_base nvm region ≡ vcard_nvm_base nvm region
unfolding scv1_region_base vcard_nvm_base
same_base nvm Region.eeprom = refl
same_base nvm Region.flash = refl

-- The memory of the SCV1 chip: its two regions have the sizes of the memory map.
pub record IsScv1 (nvm : Nvm) : Type 0 where
  pub eeprom_sized : length nvm.eeprom_bytes ≡ scv1_eeprom_size
  pub flash_sized : length nvm.flash_bytes ≡ scv1_dflash_size

same_size :
    (nvm : Nvm) (region : Region)
    → IsScv1 nvm
    → scv1_nvm_size region ≡ length (vcard_nvm_base nvm region)
unfolding scv1_nvm_size vcard_nvm_base
same_size nvm Region.eeprom h = sym h.eeprom_sized
same_size nvm Region.flash h = sym h.flash_sized

-- The copy of a read within the region.
read_copy :
    (offset : ℕ) (dst base : List ℕ)
    → offset + length dst ≤ length base
    → os_memcpy_checked dst 0 (length dst) (some (drop offset base)) (length dst)
      ≡ (true, slice offset (length dst) base)
unfolding os_memcpy_checked
read_copy offset [] base h = refl
read_copy offset (d ∷ dst) base h =
    let all : List ℕ = d ∷ dst in
    let fits : length (slice offset (length all) base) ≡ length all =
      length-slice offset (length all) base h in
    ground (arith, splice-whole (slice offset (length all) base) all fits)

same_read :
    (nvm : Nvm) (region : Region) (offset : ℕ) (dst : List ℕ)
    → IsScv1 nvm
    → scv1_nvm_read nvm region offset (some dst) (length dst)
      ≡ hal_nvm_read nvm region offset (length dst)
unfolding scv1_nvm_read hal_nvm_read hal_nvm_size scv1_in_range in_range
same_read nvm region offset dst h = ground (
  arith,
  same_size nvm region h,
  same_base nvm region,
  read_copy offset dst (vcard_nvm_base nvm region),
)

same_write :
    (nvm : Nvm) (region : Region) (offset : ℕ) (src : List ℕ)
    → IsScv1 nvm
    → scv1_nvm_write nvm region offset (some src) (length src) ≡ hal_nvm_write nvm region offset src
unfolding scv1_nvm_write hal_nvm_write hal_nvm_size scv1_in_range in_range os_memcpy_checked
same_write nvm region offset src h =
    ground
      (arith, same_size nvm region h, same_base nvm region, take-all (length src) src (omega arith))

-- The SCV1 port and the simulator keep one contract: over the same memory with the sizes of the SCV1 chip, powered or not, they report
-- the same sizes, and every read into a buffer, every write and every sync gives the same answer, errors included, and
-- leaves the same memory.
pub scv1_nvm-hal_nvm :
    (nvm : Nvm) (region : Region) (offset : ℕ) (block : List ℕ)
    → IsScv1 nvm
    → (scv1_nvm_size region ≡ hal_nvm_size nvm region)
      × (scv1_nvm_read nvm region offset (some block) (length block)
          ≡ hal_nvm_read nvm region offset (length block))
      × (scv1_nvm_write nvm region offset (some block) (length block)
          ≡ hal_nvm_write nvm region offset block)
      × (scv1_nvm_sync nvm ≡ hal_nvm_sync nvm)
unfolding hal_nvm_size scv1_nvm_sync hal_nvm_sync
scv1_nvm-hal_nvm nvm region offset block h = (
  same_size nvm region h,
  same_read nvm region offset block h,
  same_write nvm region offset block h,
  ground arith,
)
