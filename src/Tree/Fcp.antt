-- ===== src/Tree/Fcp.antt =====
-- fs.c: the file control parameters that a SELECT answers.
use native_smart_card_os.Fs.{
  FsDescriptor, fs_is_ef, fs_no_sfi, fs_type_df, fs_type_ef_transparent, fs_type_mf,
}
use native_smart_card_os.Store.{put_u16}
use native_smart_card_os.Common.{
  List, [], if◌then◌else◌, length, ltb, ℕ, ◌!=◌, ◌%◌, ◌&&◌, ◌*◌, ◌++◌, ◌==◌, ◌||◌, ◌∷◌,
}

unfoldable pub fs_iso_descriptor_byte : FsDescriptor → ℕ
fs_iso_descriptor_byte d =
    if d.ftype == fs_type_mf || d.ftype == fs_type_df
    then 0x38
    else if d.ftype == fs_type_ef_transparent
    then 0x01
    else 0x00

-- The data objects, one after the other; the longest template has 17 bytes.
unfoldable pub fcp_bytes : FsDescriptor → List ℕ
unfolding fs_iso_descriptor_byte
fcp_bytes d =
    (0x82 ∷ 0x01 ∷ fs_iso_descriptor_byte d ∷ 0x83 ∷ 0x02 ∷ put_u16 d.file_id)
    ++ ((if fs_is_ef d then 0x80 ∷ 0x02 ∷ put_u16 d.size else [])
        ++ ((0x8A ∷ 0x01 ∷ d.lifecycle % 256 ∷ [])
            ++ (if fs_is_ef d && d.sfi != fs_no_sfi
                then 0x88 ∷ 0x01 ∷ d.sfi * 8 % 256 ∷ []
                else [])))

-- The template, or nothing where it does not fit.
unfoldable pub fs_build_fcp : FsDescriptor → ℕ → List ℕ
unfolding fcp_bytes
fs_build_fcp d room = if ltb room (length (fcp_bytes d)) then [] else fcp_bytes d
