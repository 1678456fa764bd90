-- ===== src/Store/Super.antt =====
-- fs_store.c: writes that are made durable, and mounting and formatting.
use native_smart_card_os.Crc16.{crc16}
use native_smart_card_os.Fs.{
  FsResult, err, err_corrupt, err_no_space, err_not_formatted, err_nvm, err_version, fs_desc_size,
  fs_max_files, fs_superblock_size, ok, refuse_if, ◌>>◌,
}
use native_smart_card_os.Hal.{
  HalResult, Nvm, Region, hal_nvm_read, hal_nvm_size, hal_nvm_sync, hal_nvm_write,
}
use native_smart_card_os.Store.Layout.{
  Action, Store, Superblock, desc_offset, fs_desc_base, fs_layout_version, fs_sb_offset, get_u16,
  get_u32, sb_image,
}
use native_smart_card_os.Common.{
  Bool, List, false, get_or, if◌then◌else◌, ltb, replicate, suc, true, zero, ℕ, ◌!=◌, ◌*◌, ◌+◌,
  ◌==◌, ◌||◌,
}

-- `if (hal_nvm_write(EEPROM, ...) != HAL_OK) return FS_ERR_NVM;`
unfoldable pub write_block : ℕ → List ℕ → Action (Unit {0})
write_block off raw s = elim (hal_nvm_write s.nvm Region.eeprom off raw) [
  | HalResult.err _ ↦ (err err_nvm, s)
  | HalResult.ok nvm' ↦ (ok tt, record s { nvm = nvm' })
]

-- `if (hal_nvm_sync() != HAL_OK) return FS_ERR_NVM;`
unfoldable pub sync : Action (Unit {0})
sync s = elim (hal_nvm_sync s.nvm) [
  | HalResult.err _ ↦ (err err_nvm, s)
  | HalResult.ok _ ↦ (ok tt, s)
]

-- A block is written to EEPROM and made durable.
unfoldable pub write_through : ℕ → List ℕ → Action (Unit {0})
unfolding write_block sync
write_through off raw s =
    let (r, s') = write_block off raw s in elim r [ err e ↦ (err e, s') | ok _ ↦ sync s' ]

unfoldable pub sb_write : Action (Unit {0})
unfolding sb_image
sb_write s = write_through fs_sb_offset (sb_image s.sb.data_top) s

-- The checks of `fs_store_mount` on the bytes of the superblock, in its order.
unfoldable pub check_superblock : Nvm → List ℕ → FsResult Superblock
check_superblock nvm raw = do
  refuse_if
      (get_or raw 0 0 != 0x53
        || get_or raw 1 0 != 0x43
        || get_or raw 2 0 != 0x4F
        || get_or raw 3 0 != 0x53)
      err_not_formatted
  refuse_if (get_u16 raw 14 != crc16 raw 14) err_corrupt
  refuse_if (get_u16 raw 4 != fs_layout_version) err_version
  refuse_if (get_u16 raw 6 == 0 || ltb fs_max_files (get_u16 raw 6)) err_corrupt
  refuse_if (ltb (hal_nvm_size nvm Region.flash) (get_u32 raw 8)) err_corrupt
  refuse_if (ltb (hal_nvm_size nvm Region.eeprom) (fs_desc_base + get_u16 raw 6 * fs_desc_size))
      err_corrupt
  ok (record {
    mounted = true;
    version = get_u16 raw 4;
    max_files = get_u16 raw 6;
    data_top = get_u32 raw 8;
  })

unfoldable pub fs_store_mount : Action (Unit {0})
unfolding check_superblock
fs_store_mount s =
    let unmounted = record s { sb = record (s.sb) { mounted = false } } in
    elim (hal_nvm_read s.nvm Region.eeprom fs_sb_offset fs_superblock_size) [
      | HalResult.err _ ↦ (err err_nvm, unmounted)
      | HalResult.ok raw ↦ elim (check_superblock s.nvm raw) [
        | err e ↦ (err e, unmounted)
        | ok sb ↦ (ok tt, record s { sb = sb })
      ]
    ]

-- The loop of `fs_store_format`, over the slots left: every slot is filled with 0xFF.
unfoldable pub free_slots : ℕ → ℕ → Action (Unit {0})
free_slots zero i s = (ok tt, s)
free_slots (suc n) i s =
    let (r, s') = write_block (desc_offset i) (replicate fs_desc_size 0xFF) s in
    elim r [ err e ↦ (err e, s') | ok _ ↦ free_slots n (i + 1) s' ]

-- The superblock is written last, and the card counts as mounted only then.
unfoldable pub write_fresh_superblock : Action (Unit {0})
write_fresh_superblock s =
    let fresh = record s {
      sb = record (s.sb) { data_top = 0; version = fs_layout_version; max_files = fs_max_files };
    } in
    let (r, s') = sb_write fresh in
    elim r [
      | err e ↦ (err e, s')
      | ok _ ↦ (ok tt, record s' { sb = record (s'.sb) { mounted = true } })
    ]

unfoldable pub fs_store_format : Action (Unit {0})
fs_store_format s =
    if ltb (hal_nvm_size s.nvm Region.eeprom) (desc_offset fs_max_files)
    then (err err_no_space, s)
    else let (r, s') = free_slots fs_max_files 0 s in
      elim r [ err e ↦ (err e, s') | ok _ ↦ write_fresh_superblock s' ]

abbrev pub fs_store_is_mounted : Store → Bool
fs_store_is_mounted s = s.sb.mounted

abbrev pub fs_store_max_files : Store → ℕ
fs_store_max_files s = if s.sb.mounted then s.sb.max_files else 0
