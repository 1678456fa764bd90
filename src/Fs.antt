-- ===== src/Fs.antt =====
-- include/filesystem/fs_types.h: file types, life cycles, descriptors and the status of a file
-- operation. The two enums are the byte codes that the memory image holds, since the code casts any
-- byte to them.
use native_smart_card_os.Common.{Bool, false, inl, inr, refl, true, ℕ, ◌==◌, ◌||◌, ◌≡◌, ◌⊎◌}

abbrev pub fs_max_files : ℕ
fs_max_files = 32

abbrev pub fs_desc_size : ℕ
fs_desc_size = 20

abbrev pub fs_superblock_size : ℕ
fs_superblock_size = 16

abbrev pub fs_max_ef_size : ℕ
fs_max_ef_size = 32767

abbrev pub fs_max_depth : ℕ
fs_max_depth = 8

abbrev pub fs_fid_mf : ℕ
fs_fid_mf = 0x3F00

abbrev pub fs_invalid_index : ℕ
fs_invalid_index = 0xFFFF

abbrev pub fs_no_parent : ℕ
fs_no_parent = 0xFFFF

abbrev pub fs_no_sfi : ℕ
fs_no_sfi = 0

abbrev pub fs_type_mf : ℕ
fs_type_mf = 0x01

abbrev pub fs_type_df : ℕ
fs_type_df = 0x02

abbrev pub fs_type_ef_transparent : ℕ
fs_type_ef_transparent = 0x03

abbrev pub fs_type_free : ℕ
fs_type_free = 0xFF

abbrev pub fs_lc_creation : ℕ
fs_lc_creation = 0x01

abbrev pub fs_lc_initialised : ℕ
fs_lc_initialised = 0x03

abbrev pub fs_lc_activated : ℕ
fs_lc_activated = 0x05

abbrev pub fs_lc_deactivated : ℕ
fs_lc_deactivated = 0x04

abbrev pub fs_lc_terminated : ℕ
fs_lc_terminated = 0x0C

pub record FsDescriptor : Type 0 where
  pub file_id : ℕ
  pub ftype : ℕ
  pub lifecycle : ℕ
  pub parent : ℕ
  pub size : ℕ
  pub data_offset : ℕ
  pub ac_read : ℕ
  pub ac_update : ℕ
  pub sfi : ℕ
  pub flags : ℕ

abbrev pub fs_is_df : FsDescriptor → Bool
fs_is_df d = d.ftype == fs_type_df || d.ftype == fs_type_mf

abbrev pub fs_is_ef : FsDescriptor → Bool
fs_is_ef d = d.ftype == fs_type_ef_transparent

abbrev pub fs_is_usable : FsDescriptor → Bool
fs_is_usable d = d.lifecycle == fs_lc_activated

-- The error values of `enum fs_status`.
pub data FsError : Type 0 where
  err_param err_not_found err_corrupt err_no_space err_exists : FsError
  err_not_usable err_wrong_type err_range err_nvm err_not_formatted err_version : FsError

-- A status with the value of the out-parameter, which is read after FS_OK alone.
pub data FsResult (A : Type 0) : Type 0 where
  ok : A → FsResult A
  err : FsError → FsResult A

infixl 5 ◌>>=◌ ◌>>◌
abbrev pub ◌>>=◌ : {A B : Type 0} → FsResult A → (A → FsResult B) → FsResult B
ok a >>= f = f a
err e >>= f = err e

abbrev pub ◌>>◌ : {B : Type 0} → FsResult (Unit {0}) → FsResult B → FsResult B
m >> k = m >>= λ _. k

-- `if (refused) return e;`
abbrev pub refuse_if : Bool → FsError → FsResult (Unit {0})
refuse_if true e = err e
refuse_if false e = ok tt

pub FsResult-cases :
    {A : Type 0} (r : FsResult A) → ((a : A) × (r ≡ ok a)) ⊎ ((e : FsError) × (r ≡ err e))
FsResult-cases (ok a) = inl (a, refl)
FsResult-cases (err e) = inr (e, refl)
