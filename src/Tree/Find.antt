-- ===== src/Tree/Find.antt =====
-- fs.c: the searches through the descriptor table. A loop recurs on the slots that are left.
use native_smart_card_os.Fs.{
  FsDescriptor, FsResult, err, err_corrupt, err_not_found, err_param, fs_is_ef, fs_no_sfi, ok,
}
use native_smart_card_os.Store.{Store, fs_store_max_files, fs_store_read_desc}
use native_smart_card_os.Common.{if◌then◌else◌, ltb, suc, zero, ℕ, ◌%◌, ◌&&◌, ◌+◌, ◌==◌, ◌||◌}

abbrev pub fs_root_index : ℕ
fs_root_index = 0

unfoldable pub fs_get : Store → ℕ → FsResult FsDescriptor
fs_get s index = fs_store_read_desc s index

-- A free or a corrupt slot is passed over; any other error ends the search.
unfoldable pub find_child_loop : ℕ → ℕ → Store → ℕ → ℕ → FsResult ℕ
find_child_loop zero i s parent file_id = err err_not_found
find_child_loop (suc n) i s parent file_id =
    let rest = find_child_loop n (i + 1) s parent file_id in
    elim (fs_store_read_desc s i) [
      | ok d ↦ if d.parent == parent && d.file_id == file_id then ok i else rest
      | err err_not_found ↦ rest
      | err err_corrupt ↦ rest
      | err e ↦ err e
    ]

unfoldable pub fs_find_child : Store → ℕ → ℕ → FsResult ℕ
fs_find_child s parent file_id = find_child_loop (fs_store_max_files s) 0 s parent file_id

unfoldable pub find_by_sfi_loop : ℕ → ℕ → Store → ℕ → ℕ → FsResult ℕ
find_by_sfi_loop zero i s df sfi = err err_not_found
find_by_sfi_loop (suc n) i s df sfi =
    let rest = find_by_sfi_loop n (i + 1) s df sfi in
    elim (fs_store_read_desc s i) [
      | ok d ↦ if d.parent == df && fs_is_ef d && d.sfi == sfi then ok i else rest
      | err _ ↦ rest
    ]

unfoldable pub fs_find_by_sfi : Store → ℕ → ℕ → FsResult ℕ
fs_find_by_sfi s df sfi =
    if sfi == fs_no_sfi || ltb 30 sfi
    then err err_param
    else find_by_sfi_loop (fs_store_max_files s) 0 s df sfi

-- `count` is a uint16_t; the table has at most 32 slots.
unfoldable pub child_count_loop : ℕ → ℕ → Store → ℕ → ℕ → ℕ
child_count_loop zero i s parent count = count
child_count_loop (suc n) i s parent count =
    child_count_loop n (i + 1) s parent (elim (fs_store_read_desc s i) [
      | ok d ↦ if d.parent == parent then (count + 1) % 65536 else count
      | err _ ↦ count
    ])

unfoldable pub fs_child_count : Store → ℕ → ℕ
fs_child_count s parent = child_count_loop (fs_store_max_files s) 0 s parent 0
