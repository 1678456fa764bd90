-- ===== src/Store/Layout.antt =====
-- fs_store.c: the state of the physical layer, and the byte layout of superblock and descriptors.
use native_smart_card_os.Crc16.{crc16}
use native_smart_card_os.Hal.{Nvm}
use native_smart_card_os.Fs.{FsResult, fs_max_files, fs_desc_size, FsDescriptor}
use native_smart_card_os.Common.{Bool, List, [], get_or, ℕ, ◌%◌, ◌*◌, ◌++◌, ◌+◌, ◌/◌, ◌∷◌}

pub record Superblock : Type 0 where
  pub mounted : Bool
  pub version : ℕ
  pub max_files : ℕ
  pub data_top : ℕ

pub record Store : Type 0 where
  pub nvm : Nvm
  pub sb : Superblock

-- A call that may write: its result, and the state after it, which an error leaves too.
abbrev pub Action : Type 0 → Type 0
Action A = Store → FsResult A × Store

abbrev pub fs_layout_version : ℕ
fs_layout_version = 1

abbrev pub fs_sb_offset : ℕ
fs_sb_offset = 0

abbrev pub fs_desc_base : ℕ
fs_desc_base = 16

-- Big-endian fields; the bits of the parts are disjoint, so `|` is a sum.
abbrev pub put_u16 : ℕ → List ℕ
put_u16 v = v / 256 % 256 ∷ v % 256 ∷ []

abbrev pub get_u16 : List ℕ → ℕ → ℕ
get_u16 raw at = get_or raw at 0 * 256 + get_or raw (at + 1) 0

abbrev pub put_u32 : ℕ → List ℕ
put_u32 v = v / 16777216 % 256 ∷ v / 65536 % 256 ∷ v / 256 % 256 ∷ v % 256 ∷ []

abbrev pub get_u32 : List ℕ → ℕ → ℕ
get_u32 raw at =
    get_or raw at 0 * 16777216
    + get_or raw (at + 1) 0 * 65536
    + get_or raw (at + 2) 0 * 256
    + get_or raw (at + 3) 0

-- The superblock without its CRC: magic, version, capacity, data top, two reserved bytes.
unfoldable pub sb_fields : ℕ → List ℕ
sb_fields top =
    0x53
    ∷ 0x43
    ∷ 0x4F
    ∷ 0x53
    ∷ (put_u16 fs_layout_version ++ put_u16 fs_max_files ++ put_u32 top ++ put_u16 0)

unfoldable pub sb_image : ℕ → List ℕ
unfolding sb_fields
sb_image top = sb_fields top ++ put_u16 (crc16 (sb_fields top) 14)

abbrev pub desc_offset : ℕ → ℕ
desc_offset index = fs_desc_base + index * fs_desc_size

-- The fields of a descriptor as they lie in the memory.
unfoldable pub desc_decode : List ℕ → FsDescriptor
desc_decode raw = record {
  file_id = get_u16 raw 0;
  ftype = get_or raw 2 0;
  lifecycle = get_or raw 3 0;
  parent = get_u16 raw 4;
  size = get_u16 raw 6;
  data_offset = get_u32 raw 8;
  ac_read = get_or raw 12 0;
  ac_update = get_or raw 13 0;
  sfi = get_or raw 14 0;
  flags = get_or raw 15 0;
}

-- A descriptor without its CRC, and with it.
unfoldable pub desc_fields : FsDescriptor → List ℕ
desc_fields d =
    put_u16 d.file_id
    ++ d.ftype % 256
      ∷ d.lifecycle % 256
      ∷ (put_u16 d.parent
          ++ (put_u16 d.size
              ++ (put_u32 d.data_offset
                  ++ (d.ac_read ∷ d.ac_update ∷ d.sfi ∷ d.flags ∷ put_u16 0))))

unfoldable pub desc_image : FsDescriptor → List ℕ
unfolding desc_fields
desc_image d = desc_fields d ++ put_u16 (crc16 (desc_fields d) 18)
