-- ===== src/Boot/RoundTrip.antt =====
-- boot_hdr.c: what is written as the header of a slot is what is parsed from it.
use native_smart_card_os.Boot.Header.{
  BootHdr, boot_hdr_parse, boot_hdr_serialise, boot_hdr_version, boot_state_loaded, hdr_fields,
}
use native_smart_card_os.Crc16.{crc16, crc16-append, crc16-lt}
use native_smart_card_os.Store.{put_u16}
use native_smart_card_os.Store.RoundTrip.{get_u16_put, get_u32_put}
use native_smart_card_os.Common.{[], arith, some, ◌++◌, ◌<◌, ◌^◌, ◌∷◌, ◌≡◌}

-- A header that is serialised is parsed as itself, in the state "loaded", if its length and its checksum fit
-- their fields.
boot_hdr_parse-boot_hdr_serialise :
    (h : BootHdr)
    → h.image_len < 2 ^ 32
    → h.image_crc < 65536
    → boot_hdr_parse (boot_hdr_serialise h)
      ≡ some (record h { version = boot_hdr_version; state = boot_state_loaded })
unfolding boot_hdr_parse boot_hdr_serialise hdr_fields
boot_hdr_parse-boot_hdr_serialise h len_fits crc_fits =
    let crc = crc16 (hdr_fields h) 12 in
    ground (
      arith,
      get_u16_put crc (crc16-lt (hdr_fields h) 12),
      crc16-append (hdr_fields h) (put_u16 crc ++ 0xFF ∷ 0xFF ∷ []) 12 (omega arith),
      get_u16_put h.image_crc crc_fits,
      get_u32_put h.image_len len_fits,
    )
