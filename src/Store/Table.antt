-- ===== src/Store/Table.antt =====
-- fs_store.c: the table of descriptors in EEPROM.
use native_smart_card_os.Crc16.{crc16}
use native_smart_card_os.Fs.{
  FsDescriptor, FsResult, err, err_corrupt, err_not_formatted, err_not_found, err_nvm, err_param,
  fs_desc_size, fs_invalid_index, fs_is_ef, fs_type_df, fs_type_ef_transparent, fs_type_free,
  fs_type_mf, ok, refuse_if, ◌>>=◌, ◌>>◌,
}
use native_smart_card_os.Hal.{HalResult, Nvm, Region, hal_nvm_read, hal_nvm_size}
use native_smart_card_os.Store.Layout.{Action, Store, desc_decode, desc_image, desc_offset, get_u16}
use native_smart_card_os.Store.Super.{write_through}
use native_smart_card_os.Common.{
  Bool, List, false, get_or, if◌then◌else◌, leb, ltb, replicate, suc, zero, ℕ, ◌!=◌, ◌&&◌, ◌+◌,
  ◌==◌,
}

unfoldable pub desc_raw_read : Store → ℕ → FsResult (List ℕ)
desc_raw_read s index =
    if s.sb.mounted
    then if leb s.sb.max_files index
      then err err_param
      else elim (hal_nvm_read s.nvm Region.eeprom (desc_offset index) fs_desc_size) [
        | HalResult.err _ ↦ err err_nvm
        | HalResult.ok raw ↦ ok raw
      ]
    else err err_not_formatted

unfoldable pub fs_store_slot_is_free : Store → ℕ → Bool
fs_store_slot_is_free s index = elim (desc_raw_read s index) [
  | err _ ↦ false
  | ok raw ↦ get_or raw 2 0 == fs_type_free
]

-- The checks of `fs_store_read_desc` on the bytes of a slot, in its order.
unfoldable pub check_desc : Nvm → List ℕ → FsResult FsDescriptor
check_desc nvm raw = do
  refuse_if (get_or raw 2 0 == fs_type_free) err_not_found
  refuse_if (get_u16 raw 18 != crc16 raw 18) err_corrupt
  refuse_if
      (get_or raw 2 0 != fs_type_mf
        && get_or raw 2 0 != fs_type_df
        && get_or raw 2 0 != fs_type_ef_transparent)
      err_corrupt
  refuse_if
      (fs_is_ef (desc_decode raw)
        && ltb (hal_nvm_size nvm Region.flash)
            ((desc_decode raw).data_offset + (desc_decode raw).size))
      err_corrupt
  ok (desc_decode raw)

unfoldable pub fs_store_read_desc : Store → ℕ → FsResult FsDescriptor
fs_store_read_desc s index = do raw ← desc_raw_read s index; check_desc s.nvm raw

unfoldable pub fs_store_write_desc : ℕ → FsDescriptor → Action (Unit {0})
fs_store_write_desc index d s =
    if s.sb.mounted
    then if leb s.sb.max_files index
      then (err err_param, s)
      else if d.ftype == fs_type_free
      then (err err_param, s)
      else write_through (desc_offset index) (desc_image d) s
    else (err err_not_formatted, s)

unfoldable pub fs_store_free_desc : ℕ → Action (Unit {0})
fs_store_free_desc index s =
    if s.sb.mounted
    then if leb s.sb.max_files index
      then (err err_param, s)
      else write_through (desc_offset index) (replicate fs_desc_size 0xFF) s
    else (err err_not_formatted, s)

-- The search of `fs_store_find_free_slot`, over the slots left.
unfoldable pub free_slot_loop : ℕ → ℕ → Store → ℕ
free_slot_loop zero i s = fs_invalid_index
free_slot_loop (suc n) i s =
    let rest = free_slot_loop n (i + 1) s in if fs_store_slot_is_free s i then i else rest

unfoldable pub fs_store_find_free_slot : Store → ℕ
unfolding free_slot_loop
fs_store_find_free_slot s =
    if s.sb.mounted then free_slot_loop s.sb.max_files 0 s else fs_invalid_index
