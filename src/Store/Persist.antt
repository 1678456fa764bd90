-- ===== src/Store/Persist.antt =====
-- fs_store.c: the superblock in EEPROM agrees with its mirror in RAM, so that a card that loses its RAM
-- mounts again to the state that it left.
use native_smart_card_os.Crc16.{crc16, crc16-append, crc16-lt}
use native_smart_card_os.Fs.{FsDescriptor, fs_max_files, fs_superblock_size, fs_type_free, ok}
use native_smart_card_os.Hal.{hal_nvm_read, hal_nvm_size}
use native_smart_card_os.Store.Layout.{
  Store, Superblock, desc_image, desc_offset, fs_layout_version, fs_sb_offset, get_u16, get_u32,
  put_u16, sb_fields, sb_image,
}
use native_smart_card_os.Store.RoundTrip.{IsStore, get_u16_put, get_u32_put}
use native_smart_card_os.Store.Slots.{
  free_image, fs_store_free_desc-ok, fs_store_write_desc-ok, put_eeprom, put_eeprom-IsStore,
}
use native_smart_card_os.Store.Super.{check_superblock, fs_store_mount}
use native_smart_card_os.Store.Table.{fs_store_free_desc, fs_store_write_desc}
use native_smart_card_os.Common.{
  List, arith, get_or, length, refl, slice, slice-splice_before, ℕ, ◌<◌, ◌^◌, ◌∙◌, ◌≡◌, ◌≢◌, ◌≤◌,
}

-- The superblock on the chip is that of the mirror.
pub record IsStored (s : Store) : Type 0 where
  pub wellformed : IsStore s
  pub this_version : s.sb.version ≡ fs_layout_version
  pub all_files : s.sb.max_files ≡ fs_max_files
  pub on_chip : slice fs_sb_offset fs_superblock_size s.nvm.eeprom_bytes ≡ sb_image s.sb.data_top

pub length-sb_image : (top : ℕ) → length (sb_image top) ≡ fs_superblock_size
unfolding sb_image
length-sb_image top = refl

sb_crc_field : (top : ℕ) → get_u16 (sb_image top) 14 ≡ crc16 (sb_fields top) 14
unfolding sb_image
sb_crc_field top = get_u16_put (crc16 (sb_fields top) 14) (crc16-lt (sb_fields top) 14)

sb_crc_checked : (top : ℕ) → crc16 (sb_image top) 14 ≡ crc16 (sb_fields top) 14
unfolding sb_image
sb_crc_checked top =
    crc16-append (sb_fields top) (put_u16 (crc16 (sb_fields top) 14)) 14
      (unfold sb_fields in omega arith)

-- The fields of the image that the mount reads.
pub sb_image_fields :
    (top : ℕ)
    → top < 2 ^ 32
    → (get_or (sb_image top) 0 0 ≡ 0x53)
      × (get_or (sb_image top) 1 0 ≡ 0x43)
      × (get_or (sb_image top) 2 0 ≡ 0x4F)
      × (get_or (sb_image top) 3 0 ≡ 0x53)
      × (get_u16 (sb_image top) 4 ≡ fs_layout_version)
      × (get_u16 (sb_image top) 6 ≡ fs_max_files)
      × (get_u32 (sb_image top) 8 ≡ top)
unfolding sb_image
sb_image_fields top h = (refl, refl, refl, refl, refl, refl, get_u32_put top h)

-- The checks of the mount accept the image of a superblock, and give back its fields.
check_superblock-sb_image :
    (s : Store)
    → IsStore s
    → s.sb.version ≡ fs_layout_version
    → s.sb.max_files ≡ fs_max_files
    → check_superblock s.nvm (sb_image s.sb.data_top) ≡ ok s.sb
unfolding check_superblock hal_nvm_size
check_superblock-sb_image s h v m =
    ground (
      arith,
      sb_crc_field s.sb.data_top,
      sb_crc_checked s.sb.data_top,
      sb_image_fields s.sb.data_top,
    )

-- Whatever RAM holds after a power cycle, mounting restores the state exactly.
pub fs_store_mount-IsStored :
    (s : Store) (lost : Superblock)
    → IsStored s
    → fs_store_mount (record s { sb = lost }) ≡ (ok tt, s)
unfolding fs_store_mount hal_nvm_read
fs_store_mount-IsStored s lost h = ground (
  arith,
  h.wellformed,
  h.on_chip,
  check_superblock-sb_image s h.wellformed h.this_version h.all_files,
)

-- A block behind the superblock does not disturb it.
pub put_eeprom-IsStored :
    (off : ℕ) (raw : List ℕ) {s : Store}
    → IsStored s
    → fs_superblock_size ≤ off
    → IsStored (put_eeprom s off raw)
put_eeprom-IsStored off raw {s} h far = record {
  wellformed = put_eeprom-IsStore h.wellformed off raw;
  this_version = h.this_version;
  all_files = h.all_files;
  on_chip =
      slice-splice_before off fs_sb_offset fs_superblock_size raw s.nvm.eeprom_bytes far
      ∙ h.on_chip;
}

-- Writing a descriptor keeps the superblock in step.
pub write_desc-IsStored :
    (i : ℕ) (d : FsDescriptor) {s : Store}
    → IsStored s
    → i < s.sb.max_files
    → d.ftype ≢ fs_type_free
    → IsStored (fs_store_write_desc i d s).1
write_desc-IsStored i d {s} h lt stored =
    rw (fs_store_write_desc-ok h.wellformed i d lt stored)
      (put_eeprom-IsStored (desc_offset i) (desc_image d) h (omega arith))

-- Freeing a slot keeps the superblock in step.
pub free_desc-IsStored :
    (i : ℕ) {s : Store} → IsStored s → i < s.sb.max_files → IsStored (fs_store_free_desc i s).1
free_desc-IsStored i {s} h lt =
    rw (fs_store_free_desc-ok h.wellformed i lt)
      (put_eeprom-IsStored (desc_offset i) free_image h (omega arith))
