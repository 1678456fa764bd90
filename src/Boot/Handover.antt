-- ===== src/Boot/Handover.antt =====
-- boot_loader.c: the commands with which a host verifies, activates and starts the image that it has
-- brought into the slot.
use native_smart_card_os.Boot.Activate.{check_slot-active, cleared_state, parse-cleared_state}
use native_smart_card_os.Boot.Download.{
  IsImage, IsSlot, activate_command, loading, restart_command, verify_command,
}
use native_smart_card_os.Boot.Erased.{cf_program-erased}
use native_smart_card_os.Boot.Flash.{cf_program, programmable}
use native_smart_card_os.Boot.Handle.{
  boot_act_restart, boot_dispatch, boot_handle, do_restart, refused,
}
use native_smart_card_os.Boot.Header.{
  BootHdr, boot_hdr_parse, boot_hdr_serialise, boot_state_active, hdr_fields,
}
use native_smart_card_os.Boot.Loader.{
  BootCtx, boot_image_plausible, boot_slot_check, do_activate, do_verify, check_slot, loaded_hdr,
  slot_active, slot_loaded,
}
use native_smart_card_os.Crc16.{crc16, crc16-append, crc16-lt}
use native_smart_card_os.Store.{put_u16, put_u32}
use native_smart_card_os.Store.RoundTrip.{get_u16_put, get_u32_put}
use native_smart_card_os.Sw.{sw_ok}
use native_smart_card_os.Common.{
  All, List, [], arith, get_or-append, length, length-append, length-replicate, length-splice, ◌∙◌,
  ◌+◌, some, refl, replicate, true, ℕ, ◌++◌, ◌-◌, ◌<◌, ◌^◌, ◌∷◌, ◌≡◌, ◌≤◌,
}

-- The first words of an image are those of the slot that holds it.
pub plausible-append :
    (xs ys : List ℕ) (len addr base size : ℕ)
    → 8 ≤ length xs
    → boot_image_plausible (xs ++ ys) len addr base size
      ≡ boot_image_plausible xs len addr base size
unfolding boot_image_plausible
plausible-append xs ys len addr base size h = ground (
  arith,
  get_or-append xs ys 0 0 (omega (arith, h)),
  get_or-append xs ys 1 0 (omega (arith, h)),
  get_or-append xs ys 2 0 (omega (arith, h)),
  get_or-append xs ys 3 0 (omega (arith, h)),
  get_or-append xs ys 4 0 (omega (arith, h)),
  get_or-append xs ys 5 0 (omega (arith, h)),
  get_or-append xs ys 6 0 (omega (arith, h)),
  get_or-append xs ys 7 0 (omega (arith, h)),
)

-- The header that VERIFY writes.
abbrev pub header_for : List ℕ → BootHdr
header_for image = loaded_hdr (length image) (crc16 image (length image))

-- The context after VERIFY.
abbrev pub verified : BootCtx → List ℕ → ℕ → BootCtx
verified ctx image m = record (loading ctx image m) {
  oshdr = boot_hdr_serialise (header_for image) ++ replicate (length ctx.oshdr - 16) 0xFF;
}

header_bytes :
    (h : BootHdr) → All (λ b. b < 256) (boot_hdr_serialise h) × (length (boot_hdr_serialise h) ≡ 16)
unfolding boot_hdr_serialise hdr_fields
header_bytes h = (omega arith, refl)

do_verify_lem :
    (ctx : BootCtx) (image : List ℕ) (m : ℕ)
    → 16 ≤ length ctx.oshdr
    → 8 ≤ length image
    → length image < 2 ^ 32
    → boot_image_plausible image (length image) ctx.load_addr ctx.sram_base ctx.sram_size ≡ true
    → do_verify
        (loading ctx image m)
        (put_u32 (length image) ++ put_u16 (crc16 image (length image)))
      ≡ (sw_ok, verified ctx image m)
unfolding do_verify
do_verify_lem ctx image m room words narrow plausible =
    let hdr = header_for image in
    let (bytes, size) = header_bytes hdr in
    ground (
      arith,
      get_u32_put (length image) narrow,
      get_u16_put (crc16 image (length image)) (crc16-lt image (length image)),
      length-append image (replicate m 0xFF),
      crc16-append image (replicate m 0xFF) (length image) (omega arith),
      plausible-append image (replicate m 0xFF) (length image) ctx.load_addr ctx.sram_base
          ctx.sram_size words,
      plausible,
      size,
      cf_program-erased [] (boot_hdr_serialise hdr) (length ctx.oshdr) bytes (omega (arith, room))
          (omega (arith, room, size)),
    )

pub verify_step :
    (ctx : BootCtx) (image : List ℕ)
    → IsSlot ctx
    → IsImage ctx image
    → boot_handle (loading ctx image (length ctx.osflash - length image)) (verify_command image) 16
      ≡ refused sw_ok (verified ctx image (length ctx.osflash - length image))
unfolding boot_handle boot_dispatch
verify_step ctx image slot good = ground (
  arith,
  do_verify_lem ctx image (length ctx.osflash - length image) slot.header_fits good.some_words
      (omega (arith, good.fits, slot.addressable)) good.plausible,
)

-- The header that VERIFY writes is found in the slot.
verified-parse :
    (ctx : BootCtx) (image : List ℕ) (m : ℕ)
    → length image < 2 ^ 32
    → boot_hdr_parse (verified ctx image m).oshdr ≡ some (header_for image)
unfolding boot_hdr_parse boot_hdr_serialise hdr_fields
verified-parse ctx image m narrow =
    let hdr = header_for image in
    let crc = crc16 (hdr_fields hdr) 12 in
    let more : List ℕ = replicate (length ctx.oshdr - 16) 0xFF in
    ground (
      arith,
      get_u32_put (length image) narrow,
      get_u16_put (crc16 image (length image)) (crc16-lt image (length image)),
      get_u16_put crc (crc16-lt (hdr_fields hdr) 12),
      crc16-append (hdr_fields hdr) (put_u16 crc ++ (0xFF ∷ 0xFF ∷ more)) 12 (omega arith),
    )

verified-check_slot :
    (image : List ℕ) (m : ℕ)
    → 8 ≤ length image
    → check_slot (image ++ replicate m 0xFF) (header_for image) ≡ slot_loaded
unfolding check_slot
verified-check_slot image m words = ground (
  arith,
  length-append image (replicate m 0xFF),
  crc16-append image (replicate m 0xFF) (length image) (omega arith),
)

-- The context after ACTIVATE.
abbrev pub activated : BootCtx → List ℕ → ℕ → BootCtx
activated ctx image m = record (verified ctx image m) {
  oshdr = cleared_state (verified ctx image m).oshdr;
}

abbrev pub active_header : List ℕ → BootHdr
active_header image = record (header_for image) { state = boot_state_active }

-- The state word of such a header can still be cleared.
do_activate-verified :
    (ctx : BootCtx) (image : List ℕ) (m : ℕ)
    → 8 ≤ length image
    → length image < 2 ^ 32
    → do_activate (verified ctx image m) ≡ (sw_ok, activated ctx image m)
unfolding do_activate boot_slot_check cf_program programmable boot_hdr_serialise hdr_fields
do_activate-verified ctx image m words narrow =
    ground (arith, verified-parse ctx image m narrow, verified-check_slot image m words)

pub activate_step :
    (ctx : BootCtx) (image : List ℕ) (m : ℕ)
    → 8 ≤ length image
    → length image < 2 ^ 32
    → boot_handle (verified ctx image m) activate_command 16 ≡ refused sw_ok (activated ctx image m)
unfolding boot_handle boot_dispatch
activate_step ctx image m words narrow =
    ground (arith, do_activate-verified ctx image m words narrow)

length-verified_oshdr :
    (ctx : BootCtx) (image : List ℕ) (m : ℕ)
    → (16 ≤ length (verified ctx image m).oshdr)
      × (16 ≤ length ctx.oshdr → length (verified ctx image m).oshdr ≡ length ctx.oshdr)
length-verified_oshdr ctx image m =
    let joined =
      length-append (boot_hdr_serialise (header_for image))
        (replicate (length ctx.oshdr - 16) 0xFF) in
    let size = (header_bytes (header_for image)).1 in
    let rest = length-replicate {A = ℕ} (length ctx.oshdr - 16) 0xFF in
    (omega (arith, joined, size), λ h. omega (arith, joined, size, rest, h))

-- The regions keep their sizes.
pub length-activated :
    (ctx : BootCtx) (image : List ℕ) (m : ℕ)
    → 16 ≤ length ctx.oshdr
    → length image + m ≡ length ctx.osflash
    → (length (activated ctx image m).osflash ≡ length ctx.osflash)
      × (length (activated ctx image m).oshdr ≡ length ctx.oshdr)
length-activated ctx image m room whole = (
  omega (arith, whole, length-append image (replicate m 0xFF), length-replicate {A = ℕ} m 0xFF),
  length-splice 14 (0x00 ∷ 0x00 ∷ []) (verified ctx image m).oshdr
      ∙ (length-verified_oshdr ctx image m).1 room,
)

-- The slot then holds an active image, of the length and with the checksum of the one that was loaded.
pub activated-boot_slot_check :
    (ctx : BootCtx) (image : List ℕ) (m : ℕ)
    → 8 ≤ length image
    → length image < 2 ^ 32
    → boot_slot_check (activated ctx image m).oshdr (activated ctx image m).osflash
      ≡ (slot_active, active_header image)
unfolding boot_slot_check
activated-boot_slot_check ctx image m words narrow =
    let old = (verified ctx image m).oshdr in
    ground (
      arith,
      (length-verified_oshdr ctx image m).0,
      length-splice 14 (0x00 ∷ 0x00 ∷ []) old,
      parse-cleared_state old (header_for image) (length-verified_oshdr ctx image m).0
          (verified-parse ctx image m narrow),
      check_slot-active (image ++ replicate m 0xFF) (header_for image)
          (verified-check_slot image m words),
    )

pub restart_step :
    (ctx : BootCtx)
    → (boot_slot_check ctx.oshdr ctx.osflash).0 ≡ slot_active
    → boot_handle ctx restart_command 16
      ≡ record { sw = sw_ok; rsp = []; action = boot_act_restart; ctx = ctx }
unfolding boot_handle boot_dispatch do_restart
restart_step ctx active = ground (arith, active)
