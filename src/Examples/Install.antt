-- ===== src/Examples/Install.antt =====
-- An image of eight bytes is brought into a slot of 16 bytes, which holds something else before.
use native_smart_card_os.Boot.{
  BootCtx, boot_image_plausible, boot_slot_check, boot_hdr_parse, boot_hdr_serialise, check_slot,
  loaded_hdr,
}
use native_smart_card_os.Crc16.{crc16}
use native_smart_card_os.Rom.Entry.{IsEntry, power_up-IsEntry}
use native_smart_card_os.Rom.Report.{boot_jump}
use native_smart_card_os.Rom.Semihost.{semihost_load}
use native_smart_card_os.Boot.Download.{IsImage, IsSlot}
use native_smart_card_os.Boot.Safety.{IsStartable}
use native_smart_card_os.Rom.Install.{feed, install_session}
use native_smart_card_os.Rom.Installed.{IsBoard, install_session_lem, install_then_power_up}
use native_smart_card_os.Rom.Loop.{
  SlotFiles, may_boot, bootsel_asserted, initial_loader, slot_power_on, scv1_osflash_base, Loader,
  in_loader, in_os, power_up,
}
use native_smart_card_os.Common.{
  List, [], arith, false, none, splice, some, take, refl, replicate, true, ℕ, ◌++◌, ◌∷◌, ◌≡◌,
}

abbrev image : List ℕ
image = 0x00 ∷ 0x10 ∷ 0x00 ∷ 0x20 ∷ 0x01 ∷ 0x20 ∷ 0x00 ∷ 0x00 ∷ []

abbrev old_slot : BootCtx
old_slot = record {
  osflash = replicate 16 0x00;
  oshdr = replicate 16 0x00;
  page_size = 8;
  load_addr = 0x2000;
  sram_base = 0x20000000;
  sram_size = 16384;
  high_water = 0;
  erased = false;
}

abbrev loader : Loader
loader = record {
  ctx = old_slot;
  dirty = false;
  files = record {
    host = record { available = true; writable = true };
    osflash_file = none;
    oshdr_file = none;
  };
}

old_slot-IsSlot : IsSlot old_slot
old_slot-IsSlot = record {
  some_bytes = omega arith;
  code_pages = refl;
  header_pages = refl;
  header_fits = omega arith;
  addressable = omega arith;
}

image-IsImage : IsImage old_slot image
unfolding boot_image_plausible
image-IsImage = record {
  all_bytes = omega arith;
  some_words = omega arith;
  fits = omega arith;
  plausible = refl;
}

install_session_lem_example :
    (l' : Loader) × (feed false (in_loader loader) (install_session image) ≡ in_os l')
    × (l'.ctx.osflash ≡ image ++ replicate 8 0xFF)
    × IsStartable l'.ctx
install_session_lem_example = install_session_lem loader image false old_slot-IsSlot image-IsImage

abbrev lost : List ℕ
lost = replicate 16 0x00

loader-IsBoard : IsBoard loader lost lost
loader-IsBoard = record {
  at_osflash = refl;
  at_sram = refl;
  all_sram = refl;
  answers = refl;
  takes_files = refl;
  code_sized = refl;
  header_sized = refl;
}

install_then_power_up_example :
    (l1 : Loader) × (l2 : Loader) × (feed false (in_loader loader) (install_session image)
      ≡ in_os l1)
    × (power_up l1.files false lost lost ≡ in_os l2)
    × (l2.ctx.osflash ≡ image ++ replicate 8 0xFF)
install_then_power_up_example =
    install_then_power_up loader image lost lost false old_slot-IsSlot image-IsImage loader-IsBoard

-- The files of a board on which the image is active.
abbrev active_files : SlotFiles
active_files = record {
  host = record { available = true; writable = true };
  osflash_file = some (image ++ replicate 8 0xFF);
  oshdr_file =
      some (take 14 (boot_hdr_serialise (loaded_hdr 8 (crc16 image 8))) ++ 0x00 ∷ 0x00 ∷ []);
}

abbrev active_loader : Loader
active_loader = initial_loader active_files (slot_power_on active_files lost lost)

starts : power_up active_files false lost lost ≡ in_os active_loader
unfolding power_up slot_power_on semihost_load may_boot bootsel_asserted boot_slot_check
    boot_hdr_parse boot_hdr_serialise crc16 check_slot boot_image_plausible splice
starts = refl

power_up-IsEntry_example :
    IsEntry
      ((boot_slot_check active_loader.ctx.oshdr active_loader.ctx.osflash).1.image_len)
      (boot_jump scv1_osflash_base active_loader.ctx.osflash)
power_up-IsEntry_example = power_up-IsEntry active_files false lost lost active_loader starts
