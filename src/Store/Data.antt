-- ===== src/Store/Data.antt =====
-- fs_store.c: the data of the elementary files in FLASH.
use native_smart_card_os.Fs.{FsResult, err, err_no_space, err_not_formatted, err_range, ok}
use native_smart_card_os.Hal.{HalResult, Region, hal_nvm_read, hal_nvm_size, hal_nvm_write}
use native_smart_card_os.Store.Layout.{Action, Store}
use native_smart_card_os.Store.Super.{sb_write, sync}
use native_smart_card_os.Common.{List, [], if◌then◌else◌, length, ltb, ℕ, ◌%◌, ◌+◌, ◌-◌, ◌==◌, ◌^◌}

-- The sum is taken in 64 bits.
unfoldable pub fs_store_alloc_data : ℕ → Action ℕ
fs_store_alloc_data size s =
    let end = s.sb.data_top + size in
    let (r, s') = sb_write (record s { sb = record (s.sb) { data_top = end % 2 ^ 32 } }) in
    if s.sb.mounted
    then if ltb (hal_nvm_size s.nvm Region.flash) end
      then (err err_no_space, s)
      else elim r [ err e ↦ (err e, s') | ok _ ↦ (ok s.sb.data_top, s') ]
    else (err err_not_formatted, s)

unfoldable pub fs_store_read_data : Store → ℕ → ℕ → FsResult (List ℕ)
fs_store_read_data s offset len =
    if len == 0
    then ok []
    else if s.sb.mounted
    then elim (hal_nvm_read s.nvm Region.flash offset len) [
      | HalResult.err _ ↦ err err_range
      | HalResult.ok bytes ↦ ok bytes
    ]
    else err err_not_formatted

unfoldable pub fs_store_write_data : ℕ → List ℕ → Action (Unit {0})
fs_store_write_data offset src s =
    if length src == 0
    then (ok tt, s)
    else if s.sb.mounted
    then elim (hal_nvm_write s.nvm Region.flash offset src) [
      | HalResult.err _ ↦ (err err_range, s)
      | HalResult.ok nvm' ↦ sync (record s { nvm = nvm' })
    ]
    else (err err_not_formatted, s)

unfoldable pub fs_store_data_free : Store → ℕ
fs_store_data_free s =
    if s.sb.mounted
    then if ltb s.sb.data_top (hal_nvm_size s.nvm Region.flash)
      then hal_nvm_size s.nvm Region.flash - s.sb.data_top
      else 0
    else 0
