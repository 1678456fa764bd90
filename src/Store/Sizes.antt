-- ===== src/Store/Sizes.antt =====
-- fs_store.c: no operation changes the sizes of the chip's regions.
use native_smart_card_os.Fs.{FsDescriptor, FsResult-cases, fs_desc_size, fs_max_files}
use native_smart_card_os.Hal.{hal_nvm_size, hal_nvm_sync, hal_nvm_write}
use native_smart_card_os.Store.Data.{fs_store_alloc_data, fs_store_write_data}
use native_smart_card_os.Store.Layout.{
  Store, desc_image, desc_offset, fs_layout_version, fs_sb_offset, sb_image,
}
use native_smart_card_os.Store.Super.{
  free_slots, fs_store_format, sb_write, sync, write_block, write_fresh_superblock, write_through,
}
use native_smart_card_os.Store.Table.{fs_store_free_desc, fs_store_write_desc}
use native_smart_card_os.Common.{
  List, arith, inl, inr, length, length-splice, refl, replicate, suc, zero, ℕ, ◌%◌, ◌+◌, ◌^◌, ◌≡◌,
}

-- The regions have the same sizes.
abbrev pub SameSize : Store → Store → Type 0
SameSize s s' =
    (length s'.nvm.eeprom_bytes ≡ length s.nvm.eeprom_bytes)
    × (length s'.nvm.flash_bytes ≡ length s.nvm.flash_bytes)

write_block-SameSize : (off : ℕ) (raw : List ℕ) (s : Store) → SameSize s (write_block off raw s).1
unfolding write_block hal_nvm_write
write_block-SameSize off raw s = (
  ground (arith, length-splice off raw s.nvm.eeprom_bytes),
  ground (arith, length-splice off raw s.nvm.eeprom_bytes),
)

write_through-SameSize :
    (off : ℕ) (raw : List ℕ) (s : Store) → SameSize s (write_through off raw s).1
unfolding write_through write_block sync hal_nvm_write hal_nvm_sync
write_through-SameSize off raw s = (
  ground (arith, length-splice off raw s.nvm.eeprom_bytes),
  ground (arith, length-splice off raw s.nvm.eeprom_bytes),
)

pub write_desc-SameSize :
    (i : ℕ) (d : FsDescriptor) (s : Store) → SameSize s (fs_store_write_desc i d s).1
unfolding fs_store_write_desc
write_desc-SameSize i d s =
    let kept = write_through-SameSize (desc_offset i) (desc_image d) s in
    (ground (arith, kept), ground (arith, kept))

pub free_desc-SameSize : (i : ℕ) (s : Store) → SameSize s (fs_store_free_desc i s).1
unfolding fs_store_free_desc
free_desc-SameSize i s =
    let kept = write_through-SameSize (desc_offset i) (replicate fs_desc_size 0xFF) s in
    (ground (arith, kept), ground (arith, kept))

pub alloc_data-SameSize : (size : ℕ) (s : Store) → SameSize s (fs_store_alloc_data size s).1
unfolding fs_store_alloc_data sb_write
alloc_data-SameSize size s =
    let top = (s.sb.data_top + size) % 2 ^ 32 in
    let kept =
      write_through-SameSize fs_sb_offset (sb_image top)
        (record s { sb = record (s.sb) { data_top = top } }) in
    (ground (arith, kept), ground (arith, kept))

pub write_data-SameSize :
    (offset : ℕ) (src : List ℕ) (s : Store) → SameSize s (fs_store_write_data offset src s).1
unfolding fs_store_write_data sync hal_nvm_write hal_nvm_sync
write_data-SameSize offset src s = (
  ground (arith, length-splice offset src s.nvm.flash_bytes),
  ground (arith, length-splice offset src s.nvm.flash_bytes),
)

free_slots-SameSize : (n i : ℕ) (s : Store) → SameSize s (free_slots n i s).1
unfolding free_slots
free_slots-SameSize zero i s = (refl, refl)
free_slots-SameSize (suc n) i s =
    let (r, s') = write_block (desc_offset i) (replicate fs_desc_size 0xFF) s in
    let kept = write_block-SameSize (desc_offset i) (replicate fs_desc_size 0xFF) s in
    let rest = free_slots-SameSize n (i + 1) s' in
    elim (FsResult-cases r) [
      | inl (u, e) ↦ (ground (arith, e, kept, rest), ground (arith, e, kept, rest))
      | inr (x, e) ↦ (ground (arith, e, kept), ground (arith, e, kept))
    ]

write_fresh-SameSize : (s : Store) → SameSize s (write_fresh_superblock s).1
unfolding write_fresh_superblock sb_write
write_fresh-SameSize s =
    let fresh = record s {
      sb = record (s.sb) { data_top = 0; version = fs_layout_version; max_files = fs_max_files };
    } in
    let kept = write_through-SameSize fs_sb_offset (sb_image 0) fresh in
    elim (FsResult-cases (write_through fs_sb_offset (sb_image 0) fresh).0) [
      | inl (u, e) ↦ (ground (arith, e, kept), ground (arith, e, kept))
      | inr (x, e) ↦ (ground (arith, e, kept), ground (arith, e, kept))
    ]

pub format-SameSize : (s : Store) → SameSize s (fs_store_format s).1
unfolding fs_store_format hal_nvm_size
format-SameSize s =
    let (r, s') = free_slots fs_max_files 0 s in
    let kept = free_slots-SameSize fs_max_files 0 s in
    let fresh = write_fresh-SameSize s' in
    elim (FsResult-cases r) [
      | inl (u, e) ↦ (ground (arith, e, kept, fresh), ground (arith, e, kept, fresh))
      | inr (x, e) ↦ (ground (arith, e, kept), ground (arith, e, kept))
    ]

-- What writes EEPROM alone leaves the bytes of FLASH.
abbrev pub SameFlash : Store → Store → Type 0
SameFlash s s' = s'.nvm.flash_bytes ≡ s.nvm.flash_bytes

write_through-SameFlash :
    (off : ℕ) (raw : List ℕ) (s : Store) → SameFlash s (write_through off raw s).1
unfolding write_through write_block sync hal_nvm_write hal_nvm_sync
write_through-SameFlash off raw s = ground arith

pub write_desc-SameFlash :
    (i : ℕ) (d : FsDescriptor) (s : Store) → SameFlash s (fs_store_write_desc i d s).1
unfolding fs_store_write_desc
write_desc-SameFlash i d s =
    ground (arith, write_through-SameFlash (desc_offset i) (desc_image d) s)

pub free_desc-SameFlash : (i : ℕ) (s : Store) → SameFlash s (fs_store_free_desc i s).1
unfolding fs_store_free_desc
free_desc-SameFlash i s =
    ground (arith, write_through-SameFlash (desc_offset i) (replicate fs_desc_size 0xFF) s)

pub alloc_data-SameFlash : (size : ℕ) (s : Store) → SameFlash s (fs_store_alloc_data size s).1
unfolding fs_store_alloc_data sb_write
alloc_data-SameFlash size s =
    let top = (s.sb.data_top + size) % 2 ^ 32 in
    ground (
      arith,
      write_through-SameFlash fs_sb_offset (sb_image top)
          (record s { sb = record (s.sb) { data_top = top } }),
    )
