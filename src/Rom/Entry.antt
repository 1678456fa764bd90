-- ===== src/Rom/Entry.antt =====
-- boot_main.c: the stack and the entry point with which the OS is started at power-up.
use native_smart_card_os.Boot.{boot_image_plausible, boot_slot_check}
use native_smart_card_os.Rom.Loop.{
  Loader, SlotFiles, in_os, initial_loader, may_boot, power_up, scv1_osflash_base, scv1_sram_base,
  scv1_sram_size, slot_power_on,
}
use native_smart_card_os.Rom.Report.{Registers, boot_jump}
use native_smart_card_os.Common.{
  Bool, Bool-cases, List, arith, inl, inr, true, ℕ, ◌%◌, ◌+◌, ◌<◌, ◌≡◌, ◌≤◌,
}

-- The stack lies in SRAM, on a word; the vector table is the image's; and the entry point is Thumb code within an
-- image of `len` bytes.
pub record IsEntry (len : ℕ) (r : Registers) : Type 0 where
  pub table : r.vtor ≡ scv1_osflash_base
  pub above : scv1_sram_base < r.sp
  pub below : r.sp ≤ scv1_sram_base + scv1_sram_size
  pub on_word : r.sp % 4 ≡ 0
  pub is_thumb : r.pc % 2 ≡ 1
  pub starts : scv1_osflash_base < r.pc
  pub ends : r.pc ≤ scv1_osflash_base + len

plausible-IsEntry :
    (osflash : List ℕ) (len : ℕ)
    → boot_image_plausible osflash len scv1_osflash_base scv1_sram_base scv1_sram_size ≡ true
    → IsEntry len (boot_jump scv1_osflash_base osflash)
unfolding boot_image_plausible boot_jump
plausible-IsEntry osflash len h = ground (arith, h)

-- Where power-up starts the OS, the core leaves the boot ROM with the image's vector table, a stack on a word in
-- SRAM, and an entry point of Thumb code within the image.
pub power_up-IsEntry :
    (files : SlotFiles) (strap : Bool) (osflash oshdr : List ℕ) (l : Loader)
    → power_up files strap osflash oshdr ≡ in_os l
    → IsEntry
        ((boot_slot_check l.ctx.oshdr l.ctx.osflash).1.image_len)
        (boot_jump scv1_osflash_base l.ctx.osflash)
unfolding power_up may_boot
power_up-IsEntry files strap osflash oshdr l h =
    let (code, header) = slot_power_on files osflash oshdr in
    elim (Bool-cases (may_boot files strap code header)) [
      | inr stays ↦ absurd (ground (arith, h, stays))
      | inl boots ↦
          let same : initial_loader files (code, header) ≡ l = ground (arith, h, boots) in
          rw⁻¹ same (
            plausible-IsEntry code ((boot_slot_check header code).1.image_len)
              (ground (arith, boots)))
    ]
