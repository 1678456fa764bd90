-- ===== src/Store/Alloc.antt =====
-- fs_store.c: the allocation of file data in FLASH.
use mathlib.Core.Path.{fun_ext}
use native_smart_card_os.Fs.{err, err_no_space, fs_desc_size, fs_superblock_size, ok, ◌>>=◌}
use native_smart_card_os.Hal.{hal_nvm_read, hal_nvm_size}
use native_smart_card_os.Store.Data.{fs_store_alloc_data}
use native_smart_card_os.Store.Layout.{Store, desc_offset, fs_sb_offset, sb_image}
use native_smart_card_os.Store.Persist.{IsStored, length-sb_image}
use native_smart_card_os.Store.RoundTrip.{IsStore}
use native_smart_card_os.Store.Slots.{check_desc_same, put_eeprom, write_through_lem}
use native_smart_card_os.Store.Super.{sb_write}
use native_smart_card_os.Store.Table.{desc_raw_read, fs_store_read_desc}
use native_smart_card_os.Common.{
  ap, arith, if◌then◌else◌, leb, length, length-splice, le→leb, refl, slice-splice_after,
  slice-splice_self, splice, true, ℕ, ◌%◌, ◌+◌, ◌^◌, ◌≡◌, ◌≤◌,
}

-- The state in which `sb_write` leaves a new data top.
abbrev pub with_top : Store → ℕ → Store
with_top s top = record s {
  nvm = record (s.nvm) { eeprom_bytes = splice fs_sb_offset (sb_image top) s.nvm.eeprom_bytes };
  sb = record (s.sb) { data_top = top };
}

pub sb_write-ok :
    (s : Store)
    → s.nvm.powered ≡ true
    → fs_superblock_size ≤ length s.nvm.eeprom_bytes
    → sb_write s ≡ (ok tt, put_eeprom s fs_sb_offset (sb_image s.sb.data_top))
unfolding sb_write
sb_write-ok s on room = ground (
  arith,
  length-sb_image s.sb.data_top,
  write_through_lem fs_sb_offset (sb_image s.sb.data_top) s,
)

-- An allocation that fits hands out the old data top, moves it by the size and records it on the
-- chip; one that does not fit changes nothing.
pub fs_store_alloc_data-ok :
    (size : ℕ) {s : Store}
    → IsStore s
    → fs_store_alloc_data size s ≡ (
        if leb (s.sb.data_top + size) (length s.nvm.flash_bytes)
        then (ok s.sb.data_top, with_top s (s.sb.data_top + size))
        else (err err_no_space, s))
unfolding fs_store_alloc_data hal_nvm_size
fs_store_alloc_data-ok size {s} h =
    let top = (s.sb.data_top + size) % 2 ^ 32 in
    ground (arith, sb_write-ok (record s { sb = record (s.sb) { data_top = top } }))

pub with_top-IsStored :
    (top : ℕ) {s : Store} → IsStored s → top ≤ length s.nvm.flash_bytes → IsStored (with_top s top)
with_top-IsStored top {s} h room = ground (
  arith,
  length-sb_image top,
  length-splice fs_sb_offset (sb_image top) s.nvm.eeprom_bytes,
  slice-splice_self fs_sb_offset (sb_image top) s.nvm.eeprom_bytes,
)

raw_read-with_top : (top i : ℕ) (s : Store) → desc_raw_read (with_top s top) i ≡ desc_raw_read s i
unfolding desc_raw_read hal_nvm_read
raw_read-with_top top i s = ground (
  arith,
  length-sb_image top,
  length-splice fs_sb_offset (sb_image top) s.nvm.eeprom_bytes,
  slice-splice_after fs_sb_offset (desc_offset i) fs_desc_size (sb_image top) s.nvm.eeprom_bytes,
)

-- Moving the data top leaves every descriptor as it was.
pub read_desc-with_top :
    (top i : ℕ) (s : Store) → fs_store_read_desc (with_top s top) i ≡ fs_store_read_desc s i
unfolding fs_store_read_desc
read_desc-with_top top i s = rw (raw_read-with_top top i s) (
    ap (λ f. desc_raw_read s i >>= f)
      (fun_ext
        λ r. check_desc_same s.nvm (splice fs_sb_offset (sb_image top) s.nvm.eeprom_bytes) r))

-- A successful allocation returns a block that starts at the old data top, ends at the new one and
-- lies within FLASH; the state stays well formed and stored, and no descriptor changes. So later
-- blocks never overlap earlier ones.
alloc_data_fresh :
    (size i : ℕ) {s : Store}
    → IsStored s
    → s.sb.data_top + size ≤ length s.nvm.flash_bytes
    → let (r, s') = fs_store_alloc_data size s in
      (r ≡ ok s.sb.data_top)
      × (s'.sb.data_top ≡ s.sb.data_top + size)
      × IsStored s'
      × (fs_store_read_desc s' i ≡ fs_store_read_desc s i)
      × (s'.nvm.flash_bytes ≡ s.nvm.flash_bytes)
alloc_data_fresh size i {s} h room =
    rw (fs_store_alloc_data-ok size h.wellformed, le→leb _ _ room)
      (
        refl,
        refl,
        with_top-IsStored (s.sb.data_top + size) h room,
        read_desc-with_top (s.sb.data_top + size) i s,
        refl,
      )
