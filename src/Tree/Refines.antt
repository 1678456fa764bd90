-- ===== src/Tree/Refines.antt =====
-- fs.c: reading, against the files that the file system promises.
use native_smart_card_os.Fs.{
  FsDescriptor, FsResult-cases, err, err_range, fs_is_usable, fs_type_ef_transparent, ok,
}
use native_smart_card_os.Hal.{hal_nvm_read}
use native_smart_card_os.Store.{Store, fs_store_alloc_data, fs_store_read_data, fs_store_read_desc}
use native_smart_card_os.Store.RoundTrip.{IsStore}
use native_smart_card_os.Store.Sizes.{
  SameFlash, alloc_data-SameFlash, free_desc-SameFlash, write_desc-SameFlash,
}
use native_smart_card_os.Tree.Blocks.{slice_cut}
use native_smart_card_os.Tree.Content.{fs_ef_read}
use native_smart_card_os.Tree.Create.{
  create_in, create_slot, delete_slot, fs_create_file, fs_delete_file, new_desc, store_new,
}
use native_smart_card_os.Tree.Invariant.{HasData, IsTree}
use native_smart_card_os.Tree.Select.{FsSelection, resolve}
use native_smart_card_os.Tree.Spec.{File, forget_place, view}
use native_smart_card_os.Common.{
  Bool-cases, arith, false, if◌then◌else◌, inl, inr, length, length-slice, ltb, slice, some, true,
  ℕ, ◌+◌, ◌-◌, ◌≡◌, ◌≤◌,
}

-- Creating and deleting files leaves the bytes of FLASH.
store_new-SameFlash : (slot : ℕ) (d : FsDescriptor) (s : Store) → SameFlash s (store_new slot d s).1
unfolding store_new
store_new-SameFlash slot d s = ground (arith, write_desc-SameFlash slot d s)

create_in-SameFlash :
    (slot : ℕ) (sel : FsSelection) (req : FsDescriptor) (s : Store)
    → SameFlash s (create_in slot sel req s).1
unfolding create_in
create_in-SameFlash slot sel req s =
    let (r, s') = fs_store_alloc_data req.size s in
    let kept = alloc_data-SameFlash req.size s in
    let plain = store_new-SameFlash slot (new_desc sel req 0) s in
    elim (FsResult-cases r) [
      | inr (e, q) ↦ ground (arith, q, kept, plain)
      | inl (offset, q) ↦
          ground (arith, q, kept, plain, store_new-SameFlash slot (new_desc sel req offset) s')
    ]

pub fs_create_file-SameFlash :
    (s : Store) (sel : FsSelection) (req : FsDescriptor) → SameFlash s (fs_create_file sel req s).1
unfolding fs_create_file
fs_create_file-SameFlash s sel req = elim (FsResult-cases (create_slot s sel req)) [
  | inr (e, r) ↦ ground (arith, r)
  | inl (slot, r) ↦ ground (arith, r, create_in-SameFlash slot sel req s)
]

pub fs_delete_file-SameFlash :
    (s : Store) (sel : FsSelection) (file_id : ℕ) → SameFlash s (fs_delete_file sel file_id s).1
unfolding fs_delete_file
fs_delete_file-SameFlash s sel file_id = elim (FsResult-cases (delete_slot s sel file_id)) [
  | inr (e, r) ↦ ground (arith, r)
  | inl (index, r) ↦ ground (arith, r, free_desc-SameFlash index s)
]

ef_read_behind :
    (s : Store) (slot offset len : ℕ) (d : FsDescriptor)
    → fs_store_read_desc s slot ≡ ok d
    → HasData d
    → fs_is_usable d ≡ true
    → ltb d.size offset ≡ true
    → fs_ef_read s slot offset len ≡ err err_range
unfolding fs_ef_read resolve
ef_read_behind s slot offset len d r ef usable behind = ground (arith, r, ef, usable, behind)

ef_read_within :
    (s : Store) (slot offset len : ℕ) (d : FsDescriptor)
    → IsStore s
    → fs_store_read_desc s slot ≡ ok d
    → HasData d
    → fs_is_usable d ≡ true
    → d.data_offset + d.size ≤ length s.nvm.flash_bytes
    → ltb d.size offset ≡ false
    → fs_ef_read s slot offset len
      ≡ ok (
          slice
            (d.data_offset + offset)
            (if ltb len (d.size - offset) then len else d.size - offset)
            s.nvm.flash_bytes)
unfolding fs_ef_read resolve fs_store_read_data hal_nvm_read
ef_read_within s slot offset len d h r ef usable inside within =
    ground (arith, r, ef, usable, within, h, inside)

-- Reading a file gives the part of its contents that is asked for, cut at its end, and an offset
-- behind the end is refused.
pub fs_ef_read-view :
    (s : Store) (slot offset len : ℕ) (f : File)
    → IsTree s
    → view s slot ≡ some f
    → f.attributes.ftype ≡ fs_type_ef_transparent
    → fs_is_usable f.attributes ≡ true
    → fs_ef_read s slot offset len
      ≡ (if ltb (length f.contents) offset then err err_range else ok (slice offset len f.contents))
unfolding view
fs_ef_read-view s slot offset len f h e ef usable =
    elim (FsResult-cases (fs_store_read_desc s slot)) [
      | inr (x, r) ↦ absurd (ground (arith, e, r))
      | inl (d, r) ↦
          let block = slice d.data_offset d.size s.nvm.flash_bytes in
          let place : f.attributes ≡ forget_place d = ground (arith, e, r) in
          let is_ef : d.ftype ≡ fs_type_ef_transparent = ground (arith, place, ef) in
          let stored : f.contents ≡ block = ground (arith, e, r, is_ef) in
          let inside : d.data_offset + d.size ≤ length s.nvm.flash_bytes =
            omega (arith, h.placed slot d r is_ef, h.stored.wellformed.data_fits) in
          let sized = length-slice d.data_offset d.size s.nvm.flash_bytes inside in
          let readable : fs_is_usable d ≡ true = ground (arith, place, usable) in
          elim (Bool-cases (ltb d.size offset)) [
            | inl behind ↦ ground (
              arith,
              ef_read_behind s slot offset len d r is_ef readable behind,
              stored,
              sized,
              behind,
            )
            | inr within ↦ ground (
              arith,
              stored,
              sized,
              within,
              ef_read_within s slot offset len d h.stored.wellformed r is_ef readable inside within,
              slice_cut d.data_offset d.size offset len s.nvm.flash_bytes inside,
            )
          ]
    ]
