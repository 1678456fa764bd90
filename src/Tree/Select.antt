-- ===== src/Tree/Select.antt =====
-- fs.c: the current selection. A selection that fails leaves the old one.
use mathlib.Core.Bool.{xor}
use native_smart_card_os.Fs.{
  FsDescriptor, FsResult, err, err_not_found, err_not_usable, err_param, err_wrong_type, fs_fid_mf,
  fs_invalid_index, fs_is_df, fs_is_usable, fs_max_depth, fs_no_parent, ok, refuse_if, ◌>>=◌, ◌>>◌,
}
use native_smart_card_os.Store.{Store, fs_store_read_desc}
use native_smart_card_os.Tree.Find.{fs_find_child, fs_root_index}
use native_smart_card_os.Common.{
  Bool, List, false, get_or, if◌then◌else◌, ltb, not, suc, true, zero, ℕ, ◌!=◌, ◌%◌, ◌&&◌, ◌*◌, ◌+◌,
  ◌/◌, ◌==◌, ◌||◌,
}

pub record FsSelection : Type 0 where
  pub cur_df : ℕ
  pub cur_ef : ℕ

abbrev pub fs_selection_reset : FsSelection
fs_selection_reset = record { cur_df = fs_root_index; cur_ef = fs_invalid_index }

unfoldable pub fs_selected_index : FsSelection → ℕ
fs_selected_index sel = if sel.cur_ef != fs_invalid_index then sel.cur_ef else sel.cur_df

-- The selection of a file that has been resolved.
unfoldable pub commit : ℕ → FsDescriptor → FsSelection
commit index d =
    if fs_is_df d
    then record { cur_df = index; cur_ef = fs_invalid_index }
    else record { cur_df = d.parent; cur_ef = index }

unfoldable pub resolve : Store → ℕ → FsResult FsDescriptor
resolve s index = do
  d ← fs_store_read_desc s index
  refuse_if (not (fs_is_usable d)) err_not_usable
  ok d

-- The four steps of the search of `fs_select_by_fid`; a step answers the index, or
-- FS_INVALID_INDEX to hand over to the next one.
unfoldable pub parent_step : Store → FsSelection → ℕ → ℕ
parent_step s sel file_id = elim (fs_store_read_desc s sel.cur_df) [
  | err _ ↦ fs_invalid_index
  | ok d ↦
      if d.parent != fs_no_parent
      then elim (fs_store_read_desc s d.parent) [
        | err _ ↦ fs_invalid_index
        | ok p ↦ if p.file_id == file_id then d.parent else fs_invalid_index
      ]
      else fs_invalid_index
]

unfoldable pub self_step : Store → FsSelection → ℕ → ℕ
self_step s sel file_id = elim (fs_store_read_desc s sel.cur_df) [
  | err _ ↦ fs_invalid_index
  | ok d ↦ if d.file_id == file_id then sel.cur_df else fs_invalid_index
]

unfoldable pub child_step : Store → FsSelection → ℕ → ℕ
child_step s sel file_id = elim (fs_find_child s sel.cur_df file_id) [
  | err _ ↦ fs_invalid_index
  | ok found ↦ found
]

abbrev pub or_else : ℕ → ℕ → ℕ
or_else index next = if index == fs_invalid_index then next else index

unfoldable pub search_fid : Store → FsSelection → ℕ → ℕ
search_fid s sel file_id =
    or_else (if file_id == fs_fid_mf then fs_root_index else fs_invalid_index) (
      or_else (child_step s sel file_id)
        (or_else (self_step s sel file_id) (parent_step s sel file_id)))

unfoldable pub fs_select_by_fid : Store → FsSelection → ℕ → FsResult FsSelection
fs_select_by_fid s sel file_id = do
  let index = search_fid s sel file_id
  refuse_if (index == fs_invalid_index) err_not_found
  d ← resolve s index
  ok (commit index d)

unfoldable pub select_child_typed : Store → FsSelection → ℕ → Bool → FsResult FsSelection
select_child_typed s sel file_id want_df = do
  index ← fs_find_child s sel.cur_df file_id
  d ← resolve s index
  refuse_if (xor want_df (fs_is_df d)) err_wrong_type
  ok (commit index d)

unfoldable pub fs_select_child_df : Store → FsSelection → ℕ → FsResult FsSelection
fs_select_child_df s sel file_id = select_child_typed s sel file_id true

unfoldable pub fs_select_child_ef : Store → FsSelection → ℕ → FsResult FsSelection
fs_select_child_ef s sel file_id = select_child_typed s sel file_id false

unfoldable pub fs_select_parent : Store → FsSelection → FsResult FsSelection
fs_select_parent s sel = do
  cur ← fs_store_read_desc s sel.cur_df
  refuse_if (cur.parent == fs_no_parent) err_not_found
  parent ← resolve s cur.parent
  ok (commit cur.parent parent)

-- Whether a path starts with the DF that it starts from.
unfoldable pub names_here : Store → FsSelection → ℕ → Bool
names_here s scratch fid = elim (fs_store_read_desc s scratch.cur_df) [
  | err _ ↦ false
  | ok here ↦ here.file_id == fid
]

-- One component of a path, with whether it is the last.
unfoldable pub path_step : Store → FsSelection → ℕ → Bool → FsResult FsSelection
path_step s scratch fid last = elim (fs_find_child s scratch.cur_df fid) [
  | err _ ↦ err err_not_found
  | ok index ↦ do
    d ← resolve s index
    refuse_if (not last && not (fs_is_df d)) err_wrong_type
    ok (commit index d)
]

-- The walk over the components from the `i`-th on, `n` of them left.
unfoldable pub path_loop : ℕ → ℕ → Store → List ℕ → FsSelection → FsResult FsSelection
path_loop zero i s path scratch = ok scratch
path_loop (suc n) i s path scratch =
    let fid = get_or path (i * 2) 0 * 256 + get_or path (i * 2 + 1) 0 in
    let stay = path_loop n (i + 1) s path scratch in
    let step = path_step s scratch fid (n == 0) >>= λ next. path_loop n (i + 1) s path next in
    if i == 0 && names_here s scratch fid then stay else step

unfoldable pub fs_select_by_path : Store → FsSelection → List ℕ → ℕ → Bool → FsResult FsSelection
fs_select_by_path s sel path path_len from_mf = do
  refuse_if (path_len == 0 || path_len % 2 != 0) err_param
  refuse_if (ltb fs_max_depth (path_len / 2)) err_param
  path_loop (path_len / 2) 0 s path (if from_mf then fs_selection_reset else sel)
