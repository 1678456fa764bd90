-- ===== src/Store/Slots.antt =====
-- fs_store.c: the descriptor table as an array of slots. A write or a free changes one slot, and every
-- slot is read as it was last written.
use mathlib.Core.Path.{fun_ext}
use native_smart_card_os.Fs.{
  FsDescriptor, err, err_not_found, err_nvm, fs_desc_size, fs_type_free, ok, ◌>>=◌,
}
use native_smart_card_os.Hal.{Nvm, hal_nvm_read, hal_nvm_size, hal_nvm_sync, hal_nvm_write}
use native_smart_card_os.Store.Layout.{Store, desc_image, desc_offset}
use native_smart_card_os.Store.RoundTrip.{
  IsDescriptor, IsStore, check_desc-desc_image, length-desc_image,
}
use native_smart_card_os.Store.Super.{write_through}
use native_smart_card_os.Store.Table.{
  check_desc, desc_raw_read, fs_store_free_desc, fs_store_read_desc, fs_store_write_desc,
}
use native_smart_card_os.Common.{
  ==→eq, Bool-cases, List, ap, arith, if◌then◌else◌, inl, inr, leb, length, length-splice, refl,
  replicate, slice, slice-splice_after, slice-splice_before, slice-splice_self, splice, ℕ, ◌&&◌,
  ◌+◌, ◌<◌, ◌==◌, ◌≡◌, ◌≢◌,
}

-- The state with a block of EEPROM replaced.
abbrev pub put_eeprom : Store → ℕ → List ℕ → Store
put_eeprom s off raw = record s {
  nvm = record (s.nvm) { eeprom_bytes = splice off raw s.nvm.eeprom_bytes };
}

abbrev pub free_image : List ℕ
free_image = replicate fs_desc_size 0xFF

-- A durable write succeeds within the region of a powered chip, and otherwise changes nothing.
pub write_through_lem :
    (off : ℕ) (raw : List ℕ) (s : Store)
    → 0 < length raw
    → write_through off raw s ≡ (
        if s.nvm.powered && leb (off + length raw) (length s.nvm.eeprom_bytes)
        then (ok tt, put_eeprom s off raw)
        else (err err_nvm, s))
unfolding write_through hal_nvm_write hal_nvm_sync
write_through_lem off raw s h = ground arith

module _ {s : Store} (h : IsStore s) where
  -- The bytes of a slot are read from its place in the table.
  pub desc_raw_read-ok :
      (i : ℕ)
      → i < s.sb.max_files
      → desc_raw_read s i ≡ ok (slice (desc_offset i) fs_desc_size s.nvm.eeprom_bytes)
  unfolding desc_raw_read hal_nvm_read
  desc_raw_read-ok i lt = ground arith

  put_slot-ok :
      (i : ℕ) (raw : List ℕ)
      → length raw ≡ fs_desc_size
      → i < s.sb.max_files
      → write_through (desc_offset i) raw s ≡ (ok tt, put_eeprom s (desc_offset i) raw)
  put_slot-ok i raw sized lt = ground (arith, write_through_lem (desc_offset i) raw s)

  -- A descriptor is written to its slot and nowhere else.
  pub fs_store_write_desc-ok :
      (i : ℕ) (d : FsDescriptor)
      → i < s.sb.max_files
      → d.ftype ≢ fs_type_free
      → fs_store_write_desc i d s ≡ (ok tt, put_eeprom s (desc_offset i) (desc_image d))
  unfolding fs_store_write_desc
  fs_store_write_desc-ok i d lt stored =
      ground (arith, put_slot-ok i (desc_image d) (length-desc_image d))

  -- A slot is freed by the erased pattern.
  pub fs_store_free_desc-ok :
      (i : ℕ)
      → i < s.sb.max_files
      → fs_store_free_desc i s ≡ (ok tt, put_eeprom s (desc_offset i) free_image)
  unfolding fs_store_free_desc
  fs_store_free_desc-ok i lt = ground (arith, put_slot-ok i free_image refl)

  -- Replacing a block of EEPROM keeps the state well formed.
  pub put_eeprom-IsStore : (off : ℕ) (raw : List ℕ) → IsStore (put_eeprom s off raw)
  put_eeprom-IsStore off raw = ground (arith, length-splice off raw s.nvm.eeprom_bytes)

slot_self :
    (i : ℕ) (raw : List ℕ) {s : Store}
    → IsStore s
    → length raw ≡ fs_desc_size
    → i < s.sb.max_files
    → desc_raw_read (put_eeprom s (desc_offset i) raw) i ≡ ok raw
slot_self i raw {s} h sized lt = ground (
  arith,
  desc_raw_read-ok (put_eeprom-IsStore h (desc_offset i) raw) i lt,
  slice-splice_self (desc_offset i) raw s.nvm.eeprom_bytes,
)

slot_ne :
    (i j : ℕ) (raw : List ℕ) {s : Store}
    → IsStore s
    → length raw ≡ fs_desc_size
    → j ≢ i
    → desc_raw_read (put_eeprom s (desc_offset i) raw) j ≡ desc_raw_read s j
unfolding desc_raw_read hal_nvm_read
slot_ne i j raw {s} h sized ne = ground (
  arith,
  length-splice (desc_offset i) raw s.nvm.eeprom_bytes,
  slice-splice_before (desc_offset i) (desc_offset j) fs_desc_size raw s.nvm.eeprom_bytes,
  slice-splice_after (desc_offset i) (desc_offset j) fs_desc_size raw s.nvm.eeprom_bytes,
)

pub check_desc_same :
    (nvm : Nvm) (bytes raw : List ℕ)
    → check_desc (record nvm { eeprom_bytes = bytes }) raw ≡ check_desc nvm raw
unfolding check_desc hal_nvm_size
check_desc_same nvm bytes raw = refl

read_slot_ne :
    (i j : ℕ) (raw : List ℕ) {s : Store}
    → IsStore s
    → length raw ≡ fs_desc_size
    → j ≢ i
    → fs_store_read_desc (put_eeprom s (desc_offset i) raw) j ≡ fs_store_read_desc s j
unfolding fs_store_read_desc
read_slot_ne i j raw {s} h sized ne = rw (slot_ne i j raw h sized ne) (
    ap (λ f. desc_raw_read s j >>= f)
      (fun_ext λ r. check_desc_same s.nvm (splice (desc_offset i) raw s.nvm.eeprom_bytes) r))

read_slot_self :
    (i : ℕ) (raw : List ℕ) {s : Store}
    → IsStore s
    → length raw ≡ fs_desc_size
    → i < s.sb.max_files
    → fs_store_read_desc (put_eeprom s (desc_offset i) raw) i ≡ check_desc s.nvm raw
unfolding fs_store_read_desc
read_slot_self i raw {s} h sized lt =
    rw (slot_self i raw h sized lt)
      (check_desc_same s.nvm (splice (desc_offset i) raw s.nvm.eeprom_bytes) raw)

-- After a descriptor is written to a slot of the table, that slot is read as this descriptor and
-- every other slot is read as before.
pub read_desc-write_desc :
    (i j : ℕ) (d : FsDescriptor) {s : Store}
    → IsStore s
    → i < s.sb.max_files
    → IsDescriptor (length s.nvm.flash_bytes) d
    → let (r, s') = fs_store_write_desc i d s in
      (r ≡ ok tt)
      × IsStore s'
      × (fs_store_read_desc s' j ≡ (if j == i then ok d else fs_store_read_desc s j))
read_desc-write_desc i j d {s} h lt good = rw (fs_store_write_desc-ok h i d lt (ground arith)) (
  refl,
  put_eeprom-IsStore h (desc_offset i) (desc_image d),
  elim (Bool-cases (j == i)) [
    | inl same ↦
        rw (same, ==→eq j i same, read_slot_self i (desc_image d) h (length-desc_image d) lt)
          (check_desc-desc_image _ d good)
    | inr other ↦ rw other (read_slot_ne i j (desc_image d) h (length-desc_image d) (ground arith))
  ],
)

-- After a slot is freed it is empty, and every other slot is read as before.
pub read_desc-free_desc :
    (i j : ℕ) {s : Store}
    → IsStore s
    → i < s.sb.max_files
    → let (r, s') = fs_store_free_desc i s in
      (r ≡ ok tt)
      × IsStore s'
      × (fs_store_read_desc s' j ≡ (if j == i then err err_not_found else fs_store_read_desc s j))
read_desc-free_desc i j {s} h lt = rw (fs_store_free_desc-ok h i lt) (
  refl,
  put_eeprom-IsStore h (desc_offset i) free_image,
  elim (Bool-cases (j == i)) [
    | inl same ↦
        rw (same, ==→eq j i same, read_slot_self i free_image h refl lt) (unfold check_desc in refl)
    | inr other ↦ rw other (read_slot_ne i j free_image h refl (ground arith))
  ],
)
