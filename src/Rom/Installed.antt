-- ===== src/Rom/Installed.antt =====
-- boot_main.c: the image that a host has brought into the slot is started, at once and at the next
-- power-up.
use native_smart_card_os.Boot.Download.{
  IsImage, IsSlot, activate_command, erase_command, erase_step, loading, restart_command,
  verify_command,
}
use native_smart_card_os.Boot.Handover.{
  activated, activated-boot_slot_check, length-activated, plausible-append, activate_step, verified,
  verify_step,
}
use native_smart_card_os.Boot.Safety.{IsStartable, slot_active_lem}
use native_smart_card_os.Rom.Decision.{flush-ctx}
use native_smart_card_os.Rom.Install.{
  downloading, feed, feed_ok, install_session, load_all, restart_round,
}
use native_smart_card_os.Rom.Restart.{slot_power_on-slot_flush}
use native_smart_card_os.Rom.Loop.{
  Loader, SlotFiles, bootsel_asserted, may_boot, power_up, scv1_osflash_base, scv1_sram_base,
  scv1_sram_size, initial_loader, in_loader, in_os, slot_flush,
}
use native_smart_card_os.Common.{
  false, Bool, ap, ◌∙◌, List, [], arith, inl, length, refl, replicate, true, ℕ, ◌^◌, ◌++◌, ◌-◌, ◌<◌,
  ◌∷◌, ◌≡◌,
}

-- The loader after ACTIVATE.
abbrev installed : Loader → List ℕ → Loader
installed l image = record l {
  ctx = activated l.ctx image (length l.ctx.osflash - length image);
  dirty = true;
}

session_end :
    (l : Loader) (image : List ℕ) (strap : Bool)
    → IsSlot l.ctx
    → IsImage l.ctx image
    → feed strap (in_loader l) (install_session image) ≡ in_os (slot_flush (installed l image))
session_end l image strap slot good =
    let m = length l.ctx.osflash - length image in
    let narrow : length image < 2 ^ 32 = omega (arith, good.fits, slot.addressable) in
    let c = activated l.ctx image m in
    feed_ok l erase_command strap (loading l.ctx [] (length l.ctx.osflash)) _
      (erase_step l.ctx slot (omega (arith, good.some_words, good.fits)))
    ∙ load_all (length image) 0 l strap [] image (length l.ctx.osflash) _ (omega arith)
        (inl (omega arith)) good.all_bytes good.fits
    ∙ feed_ok (downloading l image m) (verify_command image) strap (verified l.ctx image m)
        (activate_command ∷ restart_command ∷ []) (verify_step l.ctx image slot good)
    ∙ feed_ok (record l { ctx = verified l.ctx image m; dirty = true }) activate_command strap c
        (restart_command ∷ []) (activate_step l.ctx image m good.some_words narrow)
    ∙ restart_round (installed l image) strap
        (ap (λ r. r.0) (activated-boot_slot_check l.ctx image m good.some_words narrow))

-- A host that erases the slot, loads an image block by block, verifies, activates and restarts gets the
-- image started, whatever the slot held before: the core is in the OS, the slot holds the image in
-- front of erased flash, and it may be started. This holds while the strap is held too, since
-- RESTART jumps into the OS and does not look at the strap.
pub install_session_lem :
    (l : Loader) (image : List ℕ) (strap : Bool)
    → IsSlot l.ctx
    → IsImage l.ctx image
    → (l' : Loader) × (feed strap (in_loader l) (install_session image) ≡ in_os l')
      × (l'.ctx.osflash ≡ image ++ replicate (length l.ctx.osflash - length image) 0xFF)
      × IsStartable l'.ctx
install_session_lem l image strap slot good =
    let m = length l.ctx.osflash - length image in
    let narrow : length image < 2 ^ 32 = omega (arith, good.fits, slot.addressable) in
    let active = activated-boot_slot_check l.ctx image m good.some_words narrow in
    let last = installed l image in
    (
      slot_flush last,
      session_end l image strap slot good,
      rw (flush-ctx last) refl,
      rw (flush-ctx last) (slot_active_lem last.ctx (ap (λ r. r.0) active)),
    )

-- The addresses of the SCV1 chip, a debugger's host that takes the files, and memory of the slot's sizes that
-- has lost what it held.
pub record IsBoard (l : Loader) (osflash oshdr : List ℕ) : Type 0 where
  pub at_osflash : l.ctx.load_addr ≡ scv1_osflash_base
  pub at_sram : l.ctx.sram_base ≡ scv1_sram_base
  pub all_sram : l.ctx.sram_size ≡ scv1_sram_size
  pub answers : l.files.host.available ≡ true
  pub takes_files : l.files.host.writable ≡ true
  pub code_sized : length l.ctx.osflash ≡ length osflash
  pub header_sized : length l.ctx.oshdr ≡ length oshdr

may_boot-installed :
    (l : Loader) (image : List ℕ) (files : SlotFiles) (osflash oshdr : List ℕ)
    → IsSlot l.ctx
    → IsImage l.ctx image
    → IsBoard l osflash oshdr
    → may_boot files false (installed l image).ctx.osflash (installed l image).ctx.oshdr ≡ true
unfolding may_boot bootsel_asserted
may_boot-installed l image files osflash oshdr slot good board =
    let m = length l.ctx.osflash - length image in
    let narrow : length image < 2 ^ 32 = omega (arith, good.fits, slot.addressable) in
    ground (
      arith,
      activated-boot_slot_check l.ctx image m good.some_words narrow,
      plausible-append image (replicate m 0xFF) (length image) scv1_osflash_base scv1_sram_base
          scv1_sram_size good.some_words,
      good.plausible,
    )

-- With a host that answers and takes the files, the image is started by RESTART, which does not look at the strap,
-- and at the next power-up too, if the strap is not held then: the slot comes back from the files, and the
-- core goes from power-up into the OS.
pub install_then_power_up :
    (l : Loader) (image osflash oshdr : List ℕ) (strap : Bool)
    → IsSlot l.ctx
    → IsImage l.ctx image
    → IsBoard l osflash oshdr
    → (l1 : Loader) × (l2 : Loader) × (feed strap (in_loader l) (install_session image) ≡ in_os l1)
      × (power_up l1.files false osflash oshdr ≡ in_os l2)
      × (l2.ctx.osflash ≡ image ++ replicate (length l.ctx.osflash - length image) 0xFF)
unfolding power_up
install_then_power_up l image osflash oshdr strap slot good board =
    let m = length l.ctx.osflash - length image in
    let last = installed l image in
    let size = length-activated l.ctx image m slot.header_fits (omega (arith, good.fits)) in
    let kept =
      slot_power_on-slot_flush last osflash oshdr refl board.answers board.takes_files
        (omega (arith, good.some_words, good.fits, board.code_sized), size.0 ∙ board.code_sized)
        (omega (arith, slot.header_fits, board.header_sized), size.1 ∙ board.header_sized) in
    let files = (slot_flush last).files in
    let boots = may_boot-installed l image files osflash oshdr slot good board in
    (
      slot_flush last,
      initial_loader files (last.ctx.osflash, last.ctx.oshdr),
      session_end l image strap slot good,
      rw kept (rw boots refl),
      refl,
    )
