-- ===== src/Tree/Create.antt =====
-- fs.c: creating and deleting files.
use native_smart_card_os.Fs.{
  FsDescriptor, FsResult, err, err_exists, err_no_space, err_not_usable, err_param, err_wrong_type,
  fs_fid_mf, fs_invalid_index, fs_is_df, fs_is_usable, fs_lc_activated, fs_lc_creation,
  fs_lc_deactivated, fs_lc_initialised, fs_max_ef_size, fs_no_sfi, fs_type_df,
  fs_type_ef_transparent, fs_type_mf, ok, refuse_if, ◌>>=◌, ◌>>◌,
}
use native_smart_card_os.Store.{
  Action, Store, fs_store_alloc_data, fs_store_find_free_slot, fs_store_free_desc,
  fs_store_read_desc, fs_store_write_desc,
}
use native_smart_card_os.Tree.Find.{fs_child_count, fs_find_by_sfi, fs_find_child, fs_root_index}
use native_smart_card_os.Tree.Select.{FsSelection}
use native_smart_card_os.Common.{
  Bool, false, if◌then◌else◌, ltb, not, true, ℕ, ◌!=◌, ◌&&◌, ◌==◌, ◌||◌,
}

abbrev pub fid_is_reserved : ℕ → Bool
fid_is_reserved fid = fid == fs_fid_mf || fid == 0xFFFF

-- The switch over the type that is asked for.
unfoldable pub check_type : FsDescriptor → FsResult (Unit {0})
check_type req =
    if req.ftype == fs_type_df
    then refuse_if (req.size != 0 || req.sfi != fs_no_sfi) err_param
    else if req.ftype == fs_type_ef_transparent
    then refuse_if (req.size == 0 || ltb fs_max_ef_size req.size) err_param
      >> refuse_if (req.sfi != fs_no_sfi && (ltb req.sfi 1 || ltb 30 req.sfi)) err_param
    else if req.ftype == fs_type_mf
    then err err_exists
    else err err_param

unfoldable pub check_lifecycle : FsDescriptor → FsResult (Unit {0})
check_lifecycle req =
    refuse_if
      (not (
        req.lifecycle == fs_lc_creation
        || req.lifecycle == fs_lc_initialised
        || req.lifecycle == fs_lc_activated
        || req.lifecycle == fs_lc_deactivated))
      err_param

abbrev pub is_found : FsResult ℕ → Bool
is_found (ok _) = true
is_found (err _) = false

-- The checks before any write: the slot that the new file will take.
unfoldable pub create_slot : Store → FsSelection → FsDescriptor → FsResult ℕ
create_slot s sel req = do
  parent ← fs_store_read_desc s sel.cur_df
  refuse_if (not (fs_is_df parent)) err_wrong_type
  refuse_if (not (fs_is_usable parent)) err_not_usable
  refuse_if (fid_is_reserved req.file_id) err_exists
  check_type req
  check_lifecycle req
  refuse_if (is_found (fs_find_child s sel.cur_df req.file_id)) err_exists
  refuse_if (req.sfi != fs_no_sfi && is_found (fs_find_by_sfi s sel.cur_df req.sfi)) err_exists
  refuse_if (fs_store_find_free_slot s == fs_invalid_index) err_no_space
  ok (fs_store_find_free_slot s)

-- The descriptor that is stored, with the place of its data.
abbrev pub new_desc : FsSelection → FsDescriptor → ℕ → FsDescriptor
new_desc sel req offset = record {
  file_id = req.file_id;
  ftype = req.ftype;
  lifecycle = req.lifecycle;
  parent = sel.cur_df;
  size = req.size;
  data_offset = offset;
  ac_read = req.ac_read;
  ac_update = req.ac_update;
  sfi = req.sfi;
  flags = 0;
}

-- Write the descriptor, and answer its slot.
unfoldable pub store_new : ℕ → FsDescriptor → Action ℕ
store_new slot d s =
    let (r, s') = fs_store_write_desc slot d s in
    elim r [ err e ↦ (err e, s') | ok _ ↦ (ok slot, s') ]

-- The allocation, for an EF only, and the one descriptor write.
unfoldable pub create_in : ℕ → FsSelection → FsDescriptor → Action ℕ
unfolding store_new
create_in slot sel req s =
    let (r, s') = fs_store_alloc_data req.size s in
    if req.ftype == fs_type_ef_transparent
    then elim r [ err e ↦ (err e, s') | ok offset ↦ store_new slot (new_desc sel req offset) s' ]
    else store_new slot (new_desc sel req 0) s

unfoldable pub fs_create_file : FsSelection → FsDescriptor → Action ℕ
fs_create_file sel req s = elim (create_slot s sel req) [
  | err e ↦ (err e, s)
  | ok slot ↦ create_in slot sel req s
]

-- The checks of `fs_delete_file` before its write: the slot of the file.
unfoldable pub delete_slot : Store → FsSelection → ℕ → FsResult ℕ
delete_slot s sel file_id = do
  refuse_if (file_id == fs_fid_mf) err_not_usable
  index ← fs_find_child s sel.cur_df file_id
  d ← fs_store_read_desc s index
  refuse_if (d.ftype == fs_type_mf) err_not_usable
  refuse_if (fs_is_df d && ltb 0 (fs_child_count s index)) err_not_usable
  ok index

-- The selection after the file in a slot is gone.
unfoldable pub deselect : FsSelection → ℕ → FsSelection
deselect sel index =
    if sel.cur_df == index
    then record { cur_df = fs_root_index; cur_ef = fs_invalid_index }
    else if sel.cur_ef == index
    then record sel { cur_ef = fs_invalid_index }
    else sel

-- The selection is the result; on an error it is the old one.
unfoldable pub fs_delete_file : FsSelection → ℕ → Action FsSelection
unfolding deselect
fs_delete_file sel file_id s = elim (delete_slot s sel file_id) [
  | err e ↦ (err e, s)
  | ok index ↦
      let (r, s') = fs_store_free_desc index s in
      elim r [ err e ↦ (err e, s') | ok _ ↦ (ok (deselect sel index), s') ]
]
