-- ===== src/Examples/Loader.antt =====
-- The boot loader over a slot of 16 bytes.
use native_smart_card_os.Boot.{
  BootCtx, BootHdr, boot_act_restart, boot_dispatch, boot_handle, boot_hdr_parse,
  boot_hdr_serialise, boot_slot_check, boot_state_loaded, check_slot, do_activate, do_restart,
  slot_active,
}
use native_smart_card_os.Boot.Activate.{do_activate_lem}
use native_smart_card_os.Boot.Safety.{
  IsStartable, Untouched, boot_handle_flash, boot_handle_restart,
}
use native_smart_card_os.Crc16.{crc16}
use native_smart_card_os.Sw.{sw_ok}
use native_smart_card_os.Common.{
  List, [], arith, false, refl, replicate, take, ℕ, ◌++◌, ◌∷◌, ◌≡◌, ◌≢◌, ◌⊎◌,
}

abbrev image : List ℕ
image = 0x00 ∷ 0x10 ∷ 0x00 ∷ 0x20 ∷ 0x09 ∷ 0x00 ∷ 0x00 ∷ 0x08 ∷ []

abbrev image_hdr : BootHdr
image_hdr = record {
  version = 1;
  image_len = 8;
  image_crc = crc16 image 8;
  state = boot_state_loaded;
}

-- The header as ACTIVATE leaves it.
abbrev pub active_slot : BootCtx
active_slot = record {
  osflash = image ++ replicate 8 0xFF;
  oshdr = take 14 (boot_hdr_serialise image_hdr) ++ 0x00 ∷ 0x00 ∷ [];
  page_size = 8;
  load_addr = 0x08000000;
  sram_base = 0x20000000;
  sram_size = 0x10000;
  high_water = 0;
  erased = false;
}

restarts : (boot_handle active_slot (0x80 ∷ 0xF0 ∷ 0x00 ∷ 0x00 ∷ []) 16).action ≡ boot_act_restart
unfolding boot_handle boot_dispatch do_restart boot_slot_check boot_hdr_serialise boot_hdr_parse
    crc16 check_slot
restarts = refl

boot_handle_restart_example :
    IsStartable active_slot
    × ((boot_handle active_slot (0x80 ∷ 0xF0 ∷ 0x00 ∷ 0x00 ∷ []) 16).ctx ≡ active_slot)
boot_handle_restart_example =
    boot_handle_restart active_slot (0x80 ∷ 0xF0 ∷ 0x00 ∷ 0x00 ∷ []) 16 restarts

boot_handle_flash_example :
    Untouched active_slot
      (boot_handle active_slot (0x80 ∷ 0x54 ∷ 0x00 ∷ 0x00 ∷ 0x01 ∷ 0xAA ∷ []) 16)
boot_handle_flash_example =
    boot_handle_flash active_slot (0x80 ∷ 0x54 ∷ 0x00 ∷ 0x00 ∷ 0x01 ∷ 0xAA ∷ []) 16 refl
      (omega arith)

-- The same slot before ACTIVATE.
abbrev pub loaded_slot : BootCtx
loaded_slot = record active_slot { oshdr = boot_hdr_serialise image_hdr }

do_activate_lem_example :
    let (sw, ctx') = do_activate loaded_slot in
    ((sw ≡ sw_ok)
      × ((boot_slot_check ctx'.oshdr ctx'.osflash).0 ≡ slot_active)
      × (ctx'.osflash ≡ loaded_slot.osflash))
    ⊎ ((sw ≢ sw_ok) × (ctx' ≡ loaded_slot))
do_activate_lem_example = do_activate_lem loaded_slot
