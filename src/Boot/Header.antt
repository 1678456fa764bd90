-- ===== src/Boot/Header.antt =====
-- include/boot/boot_hdr.h and src/boot/boot_hdr.c: the header of the OS slot.
use native_smart_card_os.Crc16.{crc16}
use native_smart_card_os.Store.{get_u16, get_u32, put_u16, put_u32}
use native_smart_card_os.Common.{
  List, Option, [], get_or, if◌then◌else◌, none, some, ℕ, ◌!=◌, ◌++◌, ◌||◌, ◌∷◌,
}

abbrev pub boot_hdr_size : ℕ
boot_hdr_size = 16

abbrev pub boot_hdr_version : ℕ
boot_hdr_version = 1

abbrev pub boot_state_loaded : ℕ
boot_state_loaded = 0xFFFF

abbrev pub boot_state_active : ℕ
boot_state_active = 0x0000

pub record BootHdr : Type 0 where
  pub version : ℕ
  pub image_len : ℕ
  pub image_crc : ℕ
  pub state : ℕ

unfoldable pub boot_hdr_parse : List ℕ → Option BootHdr
boot_hdr_parse raw =
    if get_or raw 0 0 != 0x53
      || get_or raw 1 0 != 0x43
      || get_or raw 2 0 != 0x4F
      || get_or raw 3 0 != 0x53
    then none
    else if get_u16 raw 4 != boot_hdr_version
    then none
    else if get_u16 raw 12 != crc16 raw 12
    then none
    else some (record {
      version = get_u16 raw 4;
      image_len = get_u32 raw 6;
      image_crc = get_u16 raw 10;
      state = get_u16 raw 14;
    })

unfoldable pub hdr_fields : BootHdr → List ℕ
hdr_fields h =
    0x53
    ∷ 0x43
    ∷ 0x4F
    ∷ 0x53
    ∷ (put_u16 boot_hdr_version ++ (put_u32 h.image_len ++ put_u16 h.image_crc))

-- The state is left erased.
unfoldable pub boot_hdr_serialise : BootHdr → List ℕ
unfolding hdr_fields
boot_hdr_serialise h = hdr_fields h ++ (put_u16 (crc16 (hdr_fields h) 12) ++ 0xFF ∷ 0xFF ∷ [])
