-- ===== src/Vcard/Power.antt =====
-- simulator/virtual_card.c: the power cycle of the virtual chip, and the images of its regions.
use native_smart_card_os.Hal.{Nvm}
use native_smart_card_os.Common.{
  Bool, List, Option, false, if◌then◌else◌, length, ltb, none, replicate, some, take, true, ℕ, ◌*◌,
  ◌++◌, ◌-◌, ◌==◌, ◌||◌,
}

-- `SCOS_EEPROM_BYTES` and `SCOS_FLASH_BYTES`
abbrev pub scos_eeprom_bytes : ℕ
scos_eeprom_bytes = 16 * 1024

abbrev pub scos_flash_bytes : ℕ
scos_flash_bytes = 256 * 1024

-- `vcard_config`; the state directory is `none` where it is NULL.
pub record VcardConfig : Type 0 where
  pub state_dir : Option (List ℕ)
  pub eeprom_size : ℕ
  pub flash_size : ℕ
  pub rng_seed : ℕ
  pub quiet : Bool

unfoldable pub vcard_config_default : VcardConfig
vcard_config_default = record {
  state_dir = none;
  eeprom_size = scos_eeprom_bytes;
  flash_size = scos_flash_bytes;
  rng_seed = 1;
  quiet = false;
}

-- A size of 0 or above the capacity becomes the capacity.
unfoldable pub clamp_size : ℕ → ℕ → ℕ
clamp_size size capacity = if size == 0 || ltb capacity size then capacity else size

abbrev pub clamp_sizes : VcardConfig → VcardConfig
clamp_sizes c = record c {
  eeprom_size = clamp_size c.eeprom_size scos_eeprom_bytes;
  flash_size = clamp_size c.flash_size scos_flash_bytes;
}

-- `vcard_configure`: the configuration that is kept.
unfoldable pub vcard_configure : Option VcardConfig → VcardConfig
unfolding clamp_size vcard_config_default
vcard_configure none = clamp_sizes vcard_config_default
vcard_configure (some c) = clamp_sizes c

-- The two files of the state directory on the host, none where there is no such file, and whether
-- the host lets them be opened for writing. What is written to an open file is taken whole.
pub record Host : Type 0 where
  pub eeprom_image : Option (List ℕ)
  pub flash_image : Option (List ℕ)
  pub writable : Bool

-- The chip with its generator of random numbers.
pub record Vcard : Type 0 where
  pub nvm : Nvm
  pub rng_state : ℕ

-- A short image is filled up as erased, and a long one is cut.
unfoldable pub region_load : Option (List ℕ) → ℕ → List ℕ
region_load none size = replicate size 0xFF
region_load (some image) size =
    let got = take size image in got ++ replicate (size - length got) 0xFF

unfoldable pub region_store : Bool → List ℕ → Option (List ℕ) → Option (List ℕ)
region_store writable buf image = if writable then some buf else image

-- A region when the power comes on: without a state directory it is erased.
unfoldable pub region_power_on : Option (List ℕ) → Option (List ℕ) → ℕ → List ℕ
unfolding region_load
region_power_on none image size = replicate size 0xFF
region_power_on (some dir) image size = region_load image size

-- `vcard_power_on`, which always succeeds. RAM is not part of the chip's state here.
unfoldable pub vcard_power_on : VcardConfig → Host → Vcard
unfolding region_power_on
vcard_power_on c host = record {
  nvm = record {
    eeprom_bytes = region_power_on c.state_dir host.eeprom_image c.eeprom_size;
    flash_bytes = region_power_on c.state_dir host.flash_image c.flash_size;
    powered = true;
  };
  rng_state = (if c.rng_seed == 0 then 0x2545F4914F6CDD1D else c.rng_seed);
}

-- `vcard_power_off`: the host, and the chip without power.
unfoldable pub vcard_power_off : VcardConfig → Host → Vcard → Host × Vcard
unfolding region_store
vcard_power_off c host v =
    let off = record v { nvm = record (v.nvm) { powered = false } } in
    elim c.state_dir [
      | none ↦ (host, off)
      | some _ ↦
          if v.nvm.powered
          then (
            record host {
              eeprom_image = region_store host.writable v.nvm.eeprom_bytes host.eeprom_image;
              flash_image = region_store host.writable v.nvm.flash_bytes host.flash_image;
            },
            off,
          )
          else (host, off)
    ]
