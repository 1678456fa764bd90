-- ===== src/Tree/Content.antt =====
-- fs.c: reading and writing the data of an elementary file.
use native_smart_card_os.Fs.{
  FsResult, err, err_range, err_wrong_type, fs_is_ef, ok, refuse_if, ◌>>=◌, ◌>>◌,
}
use native_smart_card_os.Store.{Action, Store, fs_store_read_data, fs_store_write_data}
use native_smart_card_os.Tree.Select.{resolve}
use native_smart_card_os.Common.{List, [], if◌then◌else◌, length, ltb, not, ℕ, ◌+◌, ◌-◌, ◌==◌}

-- The bytes that are read; their number is `*out_read`.
unfoldable pub fs_ef_read : Store → ℕ → ℕ → ℕ → FsResult (List ℕ)
fs_ef_read s index offset len = do
  d ← resolve s index
  refuse_if (not (fs_is_ef d)) err_wrong_type
  refuse_if (ltb d.size offset) err_range
  let available = d.size - offset
  let to_read = if ltb len available then len else available
  if to_read == 0 then ok [] else fs_store_read_data s (d.data_offset + offset) to_read

-- The checks of `fs_ef_write` before its one write: where in FLASH the data goes.
unfoldable pub write_target : Store → ℕ → ℕ → ℕ → FsResult ℕ
write_target s index offset len = do
  d ← resolve s index
  refuse_if (not (fs_is_ef d)) err_wrong_type
  refuse_if (ltb d.size (offset + len)) err_range
  ok (d.data_offset + offset)

unfoldable pub fs_ef_write : ℕ → ℕ → List ℕ → Action (Unit {0})
fs_ef_write index offset src s =
    if length src == 0 then (ok tt, s) else elim (write_target s index offset (length src)) [
      | err e ↦ (err e, s)
      | ok at ↦ fs_store_write_data at src s
    ]
