-- ===== src/Store/Format.antt =====
-- fs_store.c: formatting a blank chip.
use native_smart_card_os.Fs.{err, err_not_found, fs_desc_size, fs_max_files, fs_superblock_size, ok}
use native_smart_card_os.Hal.{hal_nvm_size, hal_nvm_write}
use native_smart_card_os.Store.Alloc.{sb_write-ok}
use native_smart_card_os.Store.Layout.{
  Store, desc_offset, fs_layout_version, fs_sb_offset, sb_image,
}
use native_smart_card_os.Store.Persist.{IsStored, length-sb_image}
use native_smart_card_os.Store.RoundTrip.{IsStore}
use native_smart_card_os.Store.Slots.{desc_raw_read-ok, free_image, put_eeprom}
use native_smart_card_os.Store.Super.{
  free_slots, fs_store_format, write_block, write_fresh_superblock,
}
use native_smart_card_os.Store.Table.{check_desc, fs_store_read_desc}
use native_smart_card_os.Common.{
  ==→eq, Bool-cases, List, arith, inl, inr, length, length-splice, refl, slice, slice-splice_after,
  slice-splice_before, slice-splice_self, splice, suc, true, zero, ℕ, ◌+◌, ◌<◌, ◌==◌, ◌^◌, ◌∙◌, ◌≡◌,
  ◌≤◌,
}

-- EEPROM after the slots from `i` on have been filled with the erased pattern.
cleared : ℕ → ℕ → List ℕ → List ℕ
cleared zero i bytes = bytes
cleared (suc n) i bytes = cleared n (i + 1) (splice (desc_offset i) free_image bytes)

length-cleared : (n i : ℕ) (bytes : List ℕ) → length (cleared n i bytes) ≡ length bytes
unfolding cleared
length-cleared zero i bytes = refl
length-cleared (suc n) i bytes =
    length-cleared n (i + 1) (splice (desc_offset i) free_image bytes)
    ∙ length-splice (desc_offset i) free_image bytes

-- A block before the slots that are cleared is unchanged.
slice-cleared_before :
    (n i off len : ℕ) (bytes : List ℕ)
    → off + len ≤ desc_offset i
    → slice off len (cleared n i bytes) ≡ slice off len bytes
unfolding cleared
slice-cleared_before zero i off len bytes h = refl
slice-cleared_before (suc n) i off len bytes h =
    slice-cleared_before n (i + 1) off len (splice (desc_offset i) free_image bytes) (omega arith)
    ∙ slice-splice_before (desc_offset i) off len free_image bytes h

-- Every slot that is cleared holds the erased pattern.
slice-cleared :
    (n i j : ℕ) (bytes : List ℕ)
    → i ≤ j
    → j < i + n
    → desc_offset (i + n) ≤ length bytes
    → slice (desc_offset j) fs_desc_size (cleared n i bytes) ≡ free_image
unfolding cleared
slice-cleared zero i j bytes lo hi room = absurd (omega arith)
slice-cleared (suc n) i j bytes lo hi room = elim (Bool-cases (j == i)) [
  | inl same ↦ rw (==→eq j i same) (
      slice-cleared_before n (i + 1) (desc_offset i) fs_desc_size
        (splice (desc_offset i) free_image bytes) (omega arith)
      ∙ slice-splice_self (desc_offset i) free_image bytes (omega arith))
  | inr other ↦
      slice-cleared n (i + 1) j (splice (desc_offset i) free_image bytes) (ground arith)
        (omega arith) (omega (arith, length-splice (desc_offset i) free_image bytes))
]

-- The chip with its EEPROM replaced.
abbrev with_eeprom : Store → List ℕ → Store
with_eeprom s bytes = record s { nvm = record (s.nvm) { eeprom_bytes = bytes } }

write_block-ok :
    (off : ℕ) (raw : List ℕ) (s : Store)
    → s.nvm.powered ≡ true
    → 0 < length raw
    → off + length raw ≤ length s.nvm.eeprom_bytes
    → write_block off raw s ≡ (ok tt, put_eeprom s off raw)
unfolding write_block hal_nvm_write
write_block-ok off raw s on some_bytes room = ground arith

free_slots-ok :
    (n i : ℕ) (s : Store)
    → s.nvm.powered ≡ true
    → desc_offset (i + n) ≤ length s.nvm.eeprom_bytes
    → free_slots n i s ≡ (ok tt, with_eeprom s (cleared n i s.nvm.eeprom_bytes))
unfolding free_slots cleared
free_slots-ok zero i s on room = refl
free_slots-ok (suc n) i s on room = ground (
  arith,
  write_block-ok (desc_offset i) free_image s,
  free_slots-ok n (i + 1) (put_eeprom s (desc_offset i) free_image),
  length-splice (desc_offset i) free_image s.nvm.eeprom_bytes,
)

-- The state that formatting leaves.
abbrev formatted : Store → Store
formatted s =
    let bytes = cleared fs_max_files 0 s.nvm.eeprom_bytes in
    record {
      nvm = record (s.nvm) { eeprom_bytes = splice fs_sb_offset (sb_image 0) bytes };
      sb = record {
        mounted = true;
        version = fs_layout_version;
        max_files = fs_max_files;
        data_top = 0;
      };
    }

write_fresh_superblock-ok :
    (s : Store)
    → s.nvm.powered ≡ true
    → fs_superblock_size ≤ length s.nvm.eeprom_bytes
    → write_fresh_superblock s ≡ (
      ok tt,
      record {
        nvm = record (s.nvm) { eeprom_bytes = splice fs_sb_offset (sb_image 0) s.nvm.eeprom_bytes };
        sb = record {
          mounted = true;
          version = fs_layout_version;
          max_files = fs_max_files;
          data_top = 0;
        };
      },
    )
unfolding write_fresh_superblock
write_fresh_superblock-ok s on room = ground (
  arith,
  sb_write-ok (record s {
    sb = record (s.sb) { data_top = 0; version = fs_layout_version; max_files = fs_max_files };
  }),
)

fs_store_format-ok :
    (s : Store)
    → s.nvm.powered ≡ true
    → desc_offset fs_max_files ≤ length s.nvm.eeprom_bytes
    → fs_store_format s ≡ (ok tt, formatted s)
unfolding fs_store_format hal_nvm_size
fs_store_format-ok s on room = ground (
  arith,
  free_slots-ok fs_max_files 0 s,
  write_fresh_superblock-ok (with_eeprom s (cleared fs_max_files 0 s.nvm.eeprom_bytes)),
  length-cleared fs_max_files 0 s.nvm.eeprom_bytes,
)

formatted-IsStored :
    (s : Store)
    → s.nvm.powered ≡ true
    → desc_offset fs_max_files ≤ length s.nvm.eeprom_bytes
    → length s.nvm.flash_bytes < 2 ^ 32
    → IsStored (formatted s)
formatted-IsStored s on room narrow =
    let bytes : List ℕ = cleared fs_max_files 0 s.nvm.eeprom_bytes in
    ground (
      arith,
      length-sb_image 0,
      length-cleared fs_max_files 0 s.nvm.eeprom_bytes,
      length-splice fs_sb_offset (sb_image 0) bytes,
      slice-splice_self fs_sb_offset (sb_image 0) bytes,
    )

read_desc-formatted :
    (s : Store) (i : ℕ)
    → IsStore (formatted s)
    → desc_offset fs_max_files ≤ length s.nvm.eeprom_bytes
    → i < fs_max_files
    → fs_store_read_desc (formatted s) i ≡ err err_not_found
unfolding fs_store_read_desc
read_desc-formatted s i h room lt =
    let bytes : List ℕ = cleared fs_max_files 0 s.nvm.eeprom_bytes in
    rw
      (
        desc_raw_read-ok h i lt,
        slice-splice_after fs_sb_offset (desc_offset i) fs_desc_size (sb_image 0) bytes
            (omega (arith, length-sb_image 0)),
        slice-cleared fs_max_files 0 i s.nvm.eeprom_bytes (omega arith) (omega arith) room,
      )
      (unfold check_desc in refl)

-- Formatting a powered chip that is large enough succeeds; the card is then mounted, in step with
-- its chip and without data, every slot of the table is free, and FLASH is untouched.
pub format_empties :
    (s : Store) (i : ℕ)
    → s.nvm.powered ≡ true
    → desc_offset fs_max_files ≤ length s.nvm.eeprom_bytes
    → length s.nvm.flash_bytes < 2 ^ 32
    → i < fs_max_files
    → let (r, s') = fs_store_format s in
      (r ≡ ok tt)
      × IsStored s'
      × (s'.sb.data_top ≡ 0)
      × (fs_store_read_desc s' i ≡ err err_not_found)
      × (s'.nvm.flash_bytes ≡ s.nvm.flash_bytes)
format_empties s i on room narrow lt =
    let stored = formatted-IsStored s on room narrow in
    rw (fs_store_format-ok s on room)
      (refl, stored, refl, read_desc-formatted s i stored.wellformed room lt, refl)
