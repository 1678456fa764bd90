-- ===== src/Store/RoundTrip.antt =====
-- fs_store.c: what is written to a slot of the descriptor table is what is read from it.
use native_smart_card_os.Crc16.{crc16, crc16-append, crc16-lt}
use native_smart_card_os.Fs.{
  FsDescriptor, fs_desc_size, fs_max_files, fs_type_df, fs_type_ef_transparent, fs_type_mf, ok,
}
use native_smart_card_os.Hal.{Nvm, hal_nvm_size}
use native_smart_card_os.Store.Layout.{
  Store, desc_decode, desc_fields, desc_image, desc_offset, get_u16, put_u16,
}
use native_smart_card_os.Store.Table.{check_desc}
use native_smart_card_os.Common.{
  arith, get_or, length, refl, true, ℕ, ◌%◌, ◌*◌, ◌+◌, ◌/◌, ◌<◌, ◌^◌, ◌≡◌, ◌≤◌, ◌⊎◌,
}

-- The numbers in a descriptor fit their fields, the type is one that is stored, and the data of an
-- EF lies within a FLASH of that size.
pub record IsDescriptor (flash_size : ℕ) (d : FsDescriptor) : Type 0 where
  pub file_id_fits : d.file_id < 65536
  pub type_stored :
      (d.ftype ≡ fs_type_mf) ⊎ (d.ftype ≡ fs_type_df) ⊎ (d.ftype ≡ fs_type_ef_transparent)
  pub lifecycle_fits : d.lifecycle < 256
  pub parent_fits : d.parent < 65536
  pub size_fits : d.size < 65536
  pub offset_fits : d.data_offset < 2 ^ 32
  pub data_inside : d.ftype ≡ fs_type_ef_transparent → d.data_offset + d.size ≤ flash_size

-- The mirror of the superblock agrees with the chip: the table fits EEPROM, the data fits FLASH.
pub record IsStore (s : Store) : Type 0 where
  pub is_mounted : s.sb.mounted ≡ true
  pub is_powered : s.nvm.powered ≡ true
  pub some_files : 0 < s.sb.max_files
  pub few_files : s.sb.max_files ≤ fs_max_files
  pub table_fits : desc_offset s.sb.max_files ≤ length s.nvm.eeprom_bytes
  pub data_fits : s.sb.data_top ≤ length s.nvm.flash_bytes
  pub flash_narrow : length s.nvm.flash_bytes < 2 ^ 32

pub get_u16_put : (v : ℕ) → v < 65536 → v / 256 % 256 * 256 + v % 256 ≡ v
get_u16_put v h = omega arith

pub get_u32_put :
    (v : ℕ)
    → v < 2 ^ 32
    → v / 16777216 % 256 * 16777216 + v / 65536 % 256 * 65536 + v / 256 % 256 * 256 + v % 256 ≡ v
get_u32_put v h = omega arith

pub length-desc_image : (d : FsDescriptor) → length (desc_image d) ≡ fs_desc_size
unfolding desc_image
length-desc_image d = refl

desc_decode-desc_image :
    (flash_size : ℕ) (d : FsDescriptor) → IsDescriptor flash_size d → desc_decode (desc_image d) ≡ d
unfolding desc_decode desc_image
desc_decode-desc_image flash_size d h = ground (
  arith,
  get_u16_put d.file_id,
  get_u16_put d.parent,
  get_u16_put d.size,
  get_u32_put d.data_offset,
)

crc_field : (d : FsDescriptor) → get_u16 (desc_image d) 18 ≡ crc16 (desc_fields d) 18
unfolding desc_image
crc_field d = get_u16_put (crc16 (desc_fields d) 18) (crc16-lt (desc_fields d) 18)

crc_checked : (d : FsDescriptor) → crc16 (desc_image d) 18 ≡ crc16 (desc_fields d) 18
unfolding desc_image
crc_checked d = crc16-append (desc_fields d) (put_u16 (crc16 (desc_fields d) 18)) 18 (omega arith)

type_field : (d : FsDescriptor) → get_or (desc_image d) 2 0 ≡ d.ftype % 256
unfolding desc_image
type_field d = refl

-- Reading the image of a descriptor gives the descriptor back, field by field.
pub check_desc-desc_image :
    (nvm : Nvm) (d : FsDescriptor)
    → IsDescriptor (length nvm.flash_bytes) d
    → check_desc nvm (desc_image d) ≡ ok d
unfolding check_desc hal_nvm_size
check_desc-desc_image nvm d h =
    rw
      (
        crc_field d,
        crc_checked d,
        type_field d,
        desc_decode-desc_image (length nvm.flash_bytes) d h,
      )
      (ground arith)
