-- ===== src/Tree/Sizes.antt =====
-- fs.c: no operation changes the sizes of the chip's regions.
use native_smart_card_os.Fs.{FsDescriptor, FsResult-cases}
use native_smart_card_os.Store.{
  Store, fs_store_alloc_data, fs_store_format, fs_store_mount, fs_store_write_desc,
}
use native_smart_card_os.Store.Sizes.{
  SameSize, alloc_data-SameSize, format-SameSize, free_desc-SameSize, write_data-SameSize,
  write_desc-SameSize,
}
use native_smart_card_os.Tree.Content.{fs_ef_write, write_target}
use native_smart_card_os.Tree.Create.{
  create_in, create_slot, delete_slot, fs_create_file, fs_delete_file, new_desc, store_new,
}
use native_smart_card_os.Tree.Find.{fs_root_index}
use native_smart_card_os.Tree.Init.{
  LayoutRow, fs_init, fs_personalise, layout, mf_desc, row_desc, write_mf, write_row, write_rows,
}
use native_smart_card_os.Tree.Select.{FsSelection}
use native_smart_card_os.Common.{List, [], arith, inl, inr, length, refl, ℕ, ◌∷◌, ◌≡◌}

pub fs_ef_write-SameSize :
    (s : Store) (index offset : ℕ) (src : List ℕ) → SameSize s (fs_ef_write index offset src s).1
unfolding fs_ef_write
fs_ef_write-SameSize s index offset src =
    elim (FsResult-cases (write_target s index offset (length src))) [
      | inr (e, r) ↦ (ground (arith, r), ground (arith, r))
      | inl (at, r) ↦
          let kept = write_data-SameSize at src s in
          (ground (arith, r, kept), ground (arith, r, kept))
    ]

store_new-SameSize : (slot : ℕ) (d : FsDescriptor) (s : Store) → SameSize s (store_new slot d s).1
unfolding store_new
store_new-SameSize slot d s =
    let kept = write_desc-SameSize slot d s in (ground (arith, kept), ground (arith, kept))

create_in-SameSize :
    (slot : ℕ) (sel : FsSelection) (req : FsDescriptor) (s : Store)
    → SameSize s (create_in slot sel req s).1
unfolding create_in
create_in-SameSize slot sel req s =
    let (r, s') = fs_store_alloc_data req.size s in
    let kept = alloc_data-SameSize req.size s in
    let plain = store_new-SameSize slot (new_desc sel req 0) s in
    elim (FsResult-cases r) [
      | inr (e, q) ↦ (ground (arith, q, kept, plain), ground (arith, q, kept, plain))
      | inl (offset, q) ↦
          let new = store_new-SameSize slot (new_desc sel req offset) s' in
          (ground (arith, q, kept, plain, new), ground (arith, q, kept, plain, new))
    ]

pub fs_create_file-SameSize :
    (s : Store) (sel : FsSelection) (req : FsDescriptor) → SameSize s (fs_create_file sel req s).1
unfolding fs_create_file
fs_create_file-SameSize s sel req = elim (FsResult-cases (create_slot s sel req)) [
  | inr (e, r) ↦ (ground (arith, r), ground (arith, r))
  | inl (slot, r) ↦
      let kept = create_in-SameSize slot sel req s in
      (ground (arith, r, kept), ground (arith, r, kept))
]

pub fs_delete_file-SameSize :
    (s : Store) (sel : FsSelection) (file_id : ℕ) → SameSize s (fs_delete_file sel file_id s).1
unfolding fs_delete_file
fs_delete_file-SameSize s sel file_id = elim (FsResult-cases (delete_slot s sel file_id)) [
  | inr (e, r) ↦ (ground (arith, r), ground (arith, r))
  | inl (index, r) ↦
      let kept = free_desc-SameSize index s in (ground (arith, r, kept), ground (arith, r, kept))
]

write_row-SameSize : (row : LayoutRow) (s : Store) → SameSize s (write_row row s).1
unfolding write_row
write_row-SameSize row s =
    let (r, s') = fs_store_alloc_data row.size s in
    let kept = alloc_data-SameSize row.size s in
    let plain = write_desc-SameSize row.index (row_desc row 0) s in
    elim (FsResult-cases r) [
      | inr (e, q) ↦ (ground (arith, q, kept, plain), ground (arith, q, kept, plain))
      | inl (offset, q) ↦
          let new = write_desc-SameSize row.index (row_desc row offset) s' in
          (ground (arith, q, kept, plain, new), ground (arith, q, kept, plain, new))
    ]

write_rows-SameSize : (rows : List LayoutRow) (s : Store) → SameSize s (write_rows rows s).1
unfolding write_rows
write_rows-SameSize [] s = (refl, refl)
write_rows-SameSize (row ∷ rows) s =
    let (r, s') = write_row row s in
    let kept = write_row-SameSize row s in
    let rest = write_rows-SameSize rows s' in
    elim (FsResult-cases r) [
      | inl (u, e) ↦ (ground (arith, e, kept, rest), ground (arith, e, kept, rest))
      | inr (x, e) ↦ (ground (arith, e, kept), ground (arith, e, kept))
    ]

fs_personalise-SameSize : (s : Store) → SameSize s (fs_personalise s).1
unfolding fs_personalise write_mf
fs_personalise-SameSize s =
    let (r, f) = fs_store_format s in
    let formatted = format-SameSize s in
    let (q, t) = fs_store_write_desc fs_root_index mf_desc f in
    let rooted = write_desc-SameSize fs_root_index mf_desc f in
    let rows = write_rows-SameSize layout t in
    elim (FsResult-cases r) [
      | inr (x, e) ↦ (ground (arith, e, formatted), ground (arith, e, formatted))
      | inl (u, e) ↦ elim (FsResult-cases q) [
        | inr (x, g) ↦
            (ground (arith, e, g, formatted, rooted), ground (arith, e, g, formatted, rooted))
        | inl (w, g) ↦ (
          ground (arith, e, g, formatted, rooted, rows),
          ground (arith, e, g, formatted, rooted, rows),
        )
      ]
    ]

-- A mount does not write.
mount-same : (s : Store) → (fs_store_mount s).1.nvm ≡ s.nvm
unfolding fs_store_mount
mount-same s = ground arith

pub fs_init-SameSize : (s : Store) → SameSize s (fs_init s).1
unfolding fs_init
fs_init-SameSize s =
    let (r, s') = fs_store_mount s in
    let same = mount-same s in
    let made = fs_personalise-SameSize s' in
    elim (FsResult-cases r) [
      | inl (u, e) ↦ (ground (arith, e, same), ground (arith, e, same))
      | inr (x, e) ↦ (ground (arith, e, same, made), ground (arith, e, same, made))
    ]
