-- ===== src/Scv1/Cycle.antt =====
-- hal_arm_nvm.c: what a power-up finds of the file system.
use native_smart_card_os.Hal.{Nvm}
use native_smart_card_os.Rom.Semihost.{Debugger, semihost_load, semihost_load-full, semihost_store}
use native_smart_card_os.Scv1.Power.{
  Images, has_fs, load_region, scv1_nvm_power_off, scv1_nvm_power_on,
}
use native_smart_card_os.Store.{Store}
use native_smart_card_os.Store.Persist.{IsStored, sb_image_fields}
use native_smart_card_os.Tree.Invariant.{IsTree}
use native_smart_card_os.Common.{
  Bool, List, Option, [], arith, false, get_or, inl, inr, length, lt→ltb, none, refl, some,
  splice-nil, suc, take, true, zero, ℕ, ◌-◌, ◌<◌, ◌∷◌, ◌≡◌, ◌⊎◌,
}

-- A byte of the start of EEPROM is a byte of the superblock's image.
get_or-slice : (n i : ℕ) (xs : List ℕ) (d : ℕ) → i < n → get_or (take n xs) i d ≡ get_or xs i d
get_or-slice zero i xs d h = absurd (omega (arith, h))
get_or-slice (suc n) i [] d h = refl
get_or-slice (suc n) zero (x ∷ xs) d h = refl
get_or-slice (suc n) (suc i) (x ∷ xs) d h = get_or-slice n i xs d (omega (arith, h))

pub stored-has_fs : (s : Store) → IsStored s → has_fs s.nvm.eeprom_bytes ≡ true
unfolding has_fs
stored-has_fs s h = ground (
  arith,
  h.on_chip,
  sb_image_fields s.sb.data_top (omega (arith, h.wellformed)),
  get_or-slice 16 0 s.nvm.eeprom_bytes 0 (omega arith),
  get_or-slice 16 1 s.nvm.eeprom_bytes 0 (omega arith),
  get_or-slice 16 2 s.nvm.eeprom_bytes 0 (omega arith),
  get_or-slice 16 3 s.nvm.eeprom_bytes 0 (omega arith),
)

-- Without image files that can be read.
abbrev pub NoImages : Images → Type 0
NoImages images =
    (images.host.available ≡ false) ⊎ ((images.eeprom_file ≡ none) × (images.flash_file ≡ none))

no_files :
    (images : Images)
    → NoImages images
    → ((images.host.available ≡ false) ⊎ (images.eeprom_file ≡ none))
      × ((images.host.available ≡ false) ⊎ (images.flash_file ≡ none))
no_files images (inl off) = (inl off, inl off)
no_files images (inr both) = (inr both.0, inr both.1)

load_nothing :
    (host : Debugger) (image : Option (List ℕ)) (region : List ℕ)
    → (host.available ≡ false) ⊎ (image ≡ none)
    → load_region host image region ≡ (false, region)
unfolding load_region semihost_load
load_nothing host none region h = refl
load_nothing host (some x) region (inl off) = ground (arith, off)
load_nothing host (some x) region (inr e) = absurd (ground (arith, e))

load_full :
    (host : Debugger) (image region : List ℕ)
    → host.available ≡ true
    → 0 < length region
    → length image ≡ length region
    → load_region host (some image) region ≡ (true, image)
unfolding load_region
load_full host image region on some_bytes same =
    let no_tail : length image - length region ≡ 0 = omega (arith, same) in
    rw (semihost_load-full host image region on same) (
      rw no_tail
        (ground (arith, lt→ltb 0 (length region) some_bytes, splice-nil (length region) image)))

-- A power-up without images that can be read destroys no file tree: what memory holds stays as it is,
-- powered or not before.
pub scv1_nvm_power_on-kept :
    (images : Images) (s : Store) (powered : Bool)
    → IsTree s
    → NoImages images
    → scv1_nvm_power_on images (record (s.nvm) { powered = powered }) ≡ s.nvm
unfolding scv1_nvm_power_on
scv1_nvm_power_on-kept images s powered h nothing =
    let (no_eeprom, no_flash) = no_files images nothing in
    ground (
      arith,
      load_nothing images.host images.eeprom_file s.nvm.eeprom_bytes no_eeprom,
      load_nothing images.host images.flash_file s.nvm.flash_bytes no_flash,
      stored-has_fs s h.stored,
      h.stored.wellformed.is_powered,
    )

-- A chip that is powered down with a host that takes the files finds its regions as they were at the
-- next power-up, whatever memory of their sizes holds by then.
scv1_nvm_power_on-power_off :
    (images : Images) (nvm lost : Nvm)
    → nvm.powered ≡ true
    → images.host.available ≡ true
    → images.host.writable ≡ true
    → (0 < length lost.eeprom_bytes) × (length nvm.eeprom_bytes ≡ length lost.eeprom_bytes)
    → (0 < length lost.flash_bytes) × (length nvm.flash_bytes ≡ length lost.flash_bytes)
    → scv1_nvm_power_on (scv1_nvm_power_off images nvm).0 lost ≡ nvm
unfolding scv1_nvm_power_on scv1_nvm_power_off semihost_store
scv1_nvm_power_on-power_off images nvm lost powered on writable e f = ground (
  arith,
  powered,
  on,
  writable,
  load_full images.host nvm.eeprom_bytes lost.eeprom_bytes on e.0 e.1,
  load_full images.host nvm.flash_bytes lost.flash_bytes on f.0 f.1,
)
