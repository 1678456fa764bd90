-- ===== src/Tree/Init.antt =====
-- fs.c: the factory layout, and bringing the file system up.
use native_smart_card_os.Fs.{
  FsDescriptor, FsResult, err, err_corrupt, err_not_formatted, err_not_found, fs_fid_mf,
  fs_lc_activated, fs_no_parent, fs_no_sfi, fs_type_df, fs_type_ef_transparent, fs_type_mf, ok,
  refuse_if,
}
use native_smart_card_os.Store.{
  Action, Store, fs_store_alloc_data, fs_store_format, fs_store_mount, fs_store_read_desc,
  fs_store_write_desc,
}
use native_smart_card_os.Tree.Find.{fs_root_index}
use native_smart_card_os.Common.{List, [], if◌then◌else◌, ℕ, ◌!=◌, ◌==◌, ◌||◌, ◌∷◌}

-- A row of the factory layout.
pub record LayoutRow : Type 0 where
  pub index : ℕ
  pub file_id : ℕ
  pub ftype : ℕ
  pub parent : ℕ
  pub size : ℕ
  pub sfi : ℕ

abbrev pub layout : List LayoutRow
layout =
    record {
      index = 1;
      file_id = 0x2F00;
      ftype = fs_type_ef_transparent;
      parent = 0;
      size = 32;
      sfi = 1;
    }
    ∷ record { index = 2; file_id = 0x7F10; ftype = fs_type_df; parent = 0; size = 0; sfi = 0 }
    ∷ record {
      index = 3;
      file_id = 0x6F01;
      ftype = fs_type_ef_transparent;
      parent = 2;
      size = 64;
      sfi = 1;
    }
    ∷ record {
      index = 4;
      file_id = 0x6F02;
      ftype = fs_type_ef_transparent;
      parent = 2;
      size = 16;
      sfi = 2;
    }
    ∷ []

abbrev pub mf_desc : FsDescriptor
mf_desc = record {
  file_id = fs_fid_mf;
  ftype = fs_type_mf;
  lifecycle = fs_lc_activated;
  parent = fs_no_parent;
  size = 0;
  data_offset = 0;
  ac_read = 0;
  ac_update = 0;
  sfi = fs_no_sfi;
  flags = 0;
}

abbrev pub row_desc : LayoutRow → ℕ → FsDescriptor
row_desc row offset = record {
  file_id = row.file_id;
  ftype = row.ftype;
  lifecycle = fs_lc_activated;
  parent = row.parent;
  size = row.size;
  data_offset = offset;
  ac_read = 0;
  ac_update = 0;
  sfi = row.sfi;
  flags = 0;
}

-- One round of the loop over the layout.
unfoldable pub write_row : LayoutRow → Action (Unit {0})
write_row row s =
    let (r, s') = fs_store_alloc_data row.size s in
    if row.ftype == fs_type_ef_transparent
    then elim r [
      | err e ↦ (err e, s')
      | ok offset ↦ fs_store_write_desc row.index (row_desc row offset) s'
    ]
    else fs_store_write_desc row.index (row_desc row 0) s

unfoldable pub write_rows : List LayoutRow → Action (Unit {0})
write_rows [] s = (ok tt, s)
write_rows (row ∷ rows) s =
    let (r, s') = write_row row s in elim r [ err e ↦ (err e, s') | ok _ ↦ write_rows rows s' ]

unfoldable pub write_mf : Action (Unit {0})
write_mf s =
    let (r, s') = fs_store_write_desc fs_root_index mf_desc s in
    elim r [ err e ↦ (err e, s') | ok _ ↦ write_rows layout s' ]

unfoldable pub fs_personalise : Action (Unit {0})
fs_personalise s =
    let (r, s') = fs_store_format s in elim r [ err e ↦ (err e, s') | ok _ ↦ write_mf s' ]

-- Whether slot 0 of a mounted image holds the MF.
unfoldable pub check_root : Store → FsResult (Unit {0})
check_root s = elim (fs_store_read_desc s fs_root_index) [
  | err err_not_found ↦ err err_corrupt
  | err e ↦ err e
  | ok mf ↦ refuse_if (mf.ftype != fs_type_mf || mf.file_id != fs_fid_mf) err_corrupt
]

unfoldable pub fs_init : Action (Unit {0})
fs_init s =
    let (r, s') = fs_store_mount s in
    elim r [
      | ok _ ↦ (check_root s', s')
      | err err_not_formatted ↦ fs_personalise s'
      | err e ↦ (err e, s')
    ]
