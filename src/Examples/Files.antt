-- ===== src/Examples/Files.antt =====
-- The operations on files, on the card that holds the MF alone and on one with an EF.
use native_smart_card_os.Cmd.Changes.{fs_create_file-IsTree}
use native_smart_card_os.Examples.Card.{
  formatted_card, formatted_card-IsStored, formatted_card-flash, rooted, rooted_card-IsTree,
  rooted_root,
}
use native_smart_card_os.Fs.{
  FsDescriptor, FsError, err, fs_fid_mf, fs_is_usable, fs_lc_activated, fs_no_parent,
  fs_type_ef_transparent, ok,
}
use native_smart_card_os.Store.{Store, fs_store_read_desc, fs_store_write_desc}
use native_smart_card_os.Store.RoundTrip.{IsDescriptor, IsStore}
use native_smart_card_os.Store.Slots.{read_desc-write_desc}
use native_smart_card_os.Tree.{
  FsSelection, commit, deselect, fs_create_file, fs_delete_file, fs_ef_write, fs_select_by_fid,
  fs_selection_reset, new_desc, resolve, search_fid,
}
use native_smart_card_os.Tree.Added.{Created, fs_create_file_lem}
use native_smart_card_os.Tree.Contents.{Wrote, fs_ef_write_lem}
use native_smart_card_os.Tree.Creation.{IsRequest}
use native_smart_card_os.Tree.Invariant.{IsTree}
use native_smart_card_os.Tree.Removed.{Deleted, fs_delete_file_lem}
use native_smart_card_os.Tree.Selection.{Near, chosen, fs_select_by_fid_lem}
use native_smart_card_os.Common.{[], arith, inr, length, refl, true, ℕ, ◌∷◌, ◌≡◌, ◌⊎◌}

abbrev pub root_sel : FsSelection
root_sel = fs_selection_reset

-- A request for an EF of 16 bytes under the MF.
abbrev pub ef_req : FsDescriptor
ef_req = record {
  file_id = 0x2F01;
  ftype = fs_type_ef_transparent;
  lifecycle = fs_lc_activated;
  parent = fs_no_parent;
  size = 16;
  data_offset = 0;
  ac_read = 0;
  ac_update = 0;
  sfi = 1;
  flags = 0;
}

pub ef_req-IsRequest : IsRequest ef_req
ef_req-IsRequest = record { fid_fits = omega arith; access_fits = (omega arith, omega arith) }

fs_create_file_lem_example :
    ((slot : ℕ) × (s' : Store) × (fs_create_file root_sel ef_req rooted ≡ (ok slot, s'))
      × Created rooted root_sel ef_req slot s')
    ⊎ ((e : FsError) × (fs_create_file root_sel ef_req rooted ≡ (err e, rooted)))
fs_create_file_lem_example =
    fs_create_file_lem rooted root_sel ef_req rooted_card-IsTree ef_req-IsRequest

-- The card with the EF.
abbrev pub with_ef : Store
with_ef = (fs_create_file root_sel ef_req rooted).1

with_ef-IsTree : IsTree with_ef
with_ef-IsTree = fs_create_file-IsTree rooted root_sel ef_req ef_req-IsRequest rooted_card-IsTree

fs_ef_write_lem_example :
    ((s' : Store) × (fs_ef_write 1 4 (0xCA ∷ 0xFE ∷ []) with_ef ≡ (ok tt, s'))
      × Wrote with_ef 1 4 (0xCA ∷ 0xFE ∷ []) s')
    ⊎ ((e : FsError) × (fs_ef_write 1 4 (0xCA ∷ 0xFE ∷ []) with_ef ≡ (err e, with_ef)))
fs_ef_write_lem_example =
    fs_ef_write_lem with_ef 1 4 (0xCA ∷ 0xFE ∷ []) with_ef-IsTree (omega arith)

fs_delete_file_lem_example :
    ((index : ℕ) × (s' : Store) × (fs_delete_file root_sel 0x2F01 with_ef
        ≡ (ok (deselect root_sel index), s'))
      × Deleted with_ef root_sel 0x2F01 index s')
    ⊎ ((e : FsError) × (fs_delete_file root_sel 0x2F01 with_ef ≡ (err e, with_ef)))
fs_delete_file_lem_example = fs_delete_file_lem with_ef root_sel 0x2F01 with_ef-IsTree

mf_found : fs_select_by_fid rooted root_sel fs_fid_mf ≡ ok fs_selection_reset
unfolding fs_select_by_fid search_fid resolve commit
mf_found = ground (arith, rooted_root)

fs_select_by_fid_lem_example :
    (i : ℕ) × (d : FsDescriptor) × Near rooted root_sel fs_fid_mf i
    × (fs_store_read_desc rooted i ≡ ok d)
    × (fs_is_usable d ≡ true)
    × (fs_selection_reset ≡ chosen i d)
fs_select_by_fid_lem_example =
    fs_select_by_fid_lem rooted root_sel fs_selection_reset fs_fid_mf mf_found

-- The descriptor of the EF fits the formatted card.
ef_desc-IsDescriptor :
    IsDescriptor (length formatted_card.nvm.flash_bytes) (new_desc root_sel ef_req 0)
ef_desc-IsDescriptor = record {
  file_id_fits = omega arith;
  type_stored = inr (inr refl);
  lifecycle_fits = omega arith;
  parent_fits = omega arith;
  size_fits = omega arith;
  offset_fits = omega arith;
  data_inside = λ e. omega (arith, formatted_card-flash);
}

read_desc-write_desc_example :
    let (r, s') = fs_store_write_desc 3 (new_desc root_sel ef_req 0) formatted_card in
    (r ≡ ok tt) × IsStore s' × (fs_store_read_desc s' 3 ≡ ok (new_desc root_sel ef_req 0))
read_desc-write_desc_example =
    read_desc-write_desc 3 3 (new_desc root_sel ef_req 0) formatted_card-IsStored.wellformed
      (omega (arith, formatted_card-IsStored.all_files)) ef_desc-IsDescriptor
