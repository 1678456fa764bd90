-- ===== src/Rom/Loop.antt =====
-- src/hal/arm-scv1/boot_main.c: power-up, the loop of the loader, and the handover to the OS. What the
-- boot ROM prints stands in Rom.Report.
use native_smart_card_os.Boot.{
  BootAction, BootCtx, BootReply, BootSlotState, boot_act_none, boot_act_restart, boot_ctx_init,
  boot_handle, boot_image_plausible, boot_slot_check, slot_active,
}
use native_smart_card_os.Kernel.{LinkEvent, link_down, link_error, link_reset, received}
use native_smart_card_os.Rom.Semihost.{Debugger, is_loaded, semihost_load, semihost_store}
use native_smart_card_os.Common.{
  Bool, List, Option, [], false, if◌then◌else◌, length, not, replicate, true, ℕ, ◌%◌, ◌&&◌, ◌*◌,
  ◌++◌, ◌/◌, ◌==◌, ◌||◌, ◌∷◌,
}

-- The memory map of include/hal/... scv1.h.
abbrev pub scv1_osflash_base : ℕ
scv1_osflash_base = 0x00002000

abbrev pub scv1_cflash_page : ℕ
scv1_cflash_page = 1024

abbrev pub scv1_sram_base : ℕ
scv1_sram_base = 0x20000000

abbrev pub scv1_sram_size : ℕ
scv1_sram_size = 16 * 1024

-- The files in which the slot is kept: "card_osflash.bin" and "card_oshdr.bin".
pub record SlotFiles : Type 0 where
  pub host : Debugger
  pub osflash_file : Option (List ℕ)
  pub oshdr_file : Option (List ℕ)

-- `bootsel_asserted`, by whether the strap's file is there. A strap without a host is not seen.
unfoldable pub bootsel_asserted : Debugger → Bool → Bool
bootsel_asserted host strap = host.available && strap

-- `slot_power_on`: code and header of the slot, from the memory as it is and the files.
unfoldable pub slot_power_on : SlotFiles → List ℕ → List ℕ → List ℕ × List ℕ
slot_power_on files osflash oshdr =
    let (a, loaded) = semihost_load files.host files.osflash_file osflash in
    let (b, header) = semihost_load files.host files.oshdr_file oshdr in
    if files.host.available && is_loaded a && is_loaded b
    then (loaded, header)
    else (replicate (length osflash) 0xFF, replicate (length oshdr) 0xFF)

-- The static objects of the loader.
pub record Loader : Type 0 where
  pub ctx : BootCtx
  pub dirty : Bool
  pub files : SlotFiles

unfoldable pub slot_flush : Loader → Loader
slot_flush l = if not l.dirty || not l.files.host.available then l else record l {
  dirty = false;
  files = record (l.files) {
    osflash_file = semihost_store l.files.host l.files.osflash_file l.ctx.osflash;
    oshdr_file = semihost_store l.files.host l.files.oshdr_file l.ctx.oshdr;
  };
}

-- Where the core is: in the loader, in the OS after `boot_jump`, or halted.
pub data Core : Type 0 where
  in_loader : Loader → Core
  in_os : Loader → Core
  halted : Loader → Core

abbrev pub is_active : BootSlotState → Bool
is_active slot_active = true
is_active _ = false

-- The boot decision of `main`.
unfoldable pub may_boot : SlotFiles → Bool → List ℕ → List ℕ → Bool
may_boot files strap osflash oshdr =
    let (st, h) = boot_slot_check oshdr osflash in
    not (bootsel_asserted files.host strap)
    && is_active st
    && boot_image_plausible osflash h.image_len scv1_osflash_base scv1_sram_base scv1_sram_size

abbrev pub initial_loader : SlotFiles → List ℕ × List ℕ → Loader
initial_loader files (osflash, oshdr) = record {
  ctx =
      boot_ctx_init osflash oshdr scv1_cflash_page scv1_osflash_base scv1_sram_base scv1_sram_size;
  dirty = false;
  files = files;
}

-- `main` up to the loop.
unfoldable pub power_up : SlotFiles → Bool → List ℕ → List ℕ → Core
unfolding slot_power_on may_boot bootsel_asserted
power_up files strap osflash oshdr =
    let (code, header) = slot_power_on files osflash oshdr in
    let l = initial_loader files (code, header) in
    if may_boot files strap code header then in_os l else in_loader l

-- A reset in the loader: the OS is started, or the session begins anew.
unfoldable pub after_reset : Loader → Bool → Core
unfolding bootsel_asserted
after_reset l strap =
    if not (bootsel_asserted l.files.host strap)
      && is_active ((boot_slot_check l.ctx.oshdr l.ctx.osflash).0)
    then in_os l
    else in_loader (record l { ctx = record (l.ctx) { erased = false; high_water = 0 } })

abbrev pub boot_status_rsp_len : ℕ
boot_status_rsp_len = 16

-- What the action of a reply does to the core.
unfoldable pub act_on : BootAction → Loader → Core
act_on boot_act_restart l = in_os (slot_flush l)
act_on boot_act_none l = in_loader l

-- The loader's state after a reply.
unfoldable pub after_reply : Loader → BootReply → Core
unfolding act_on
after_reply l reply =
    act_on reply.action (record l { ctx = reply.ctx; dirty = reply.sw == 0x9000 || l.dirty })

-- One round of `loader_loop`: what the link delivers, and whether the strap is held then.
unfoldable pub loader_round : Loader → LinkEvent → Bool → Core
unfolding slot_flush after_reset after_reply
loader_round l link_down strap = halted (slot_flush l)
loader_round l link_reset strap = after_reset (slot_flush l) strap
loader_round l link_error strap = in_loader l
loader_round l (received bytes) strap = after_reply l (boot_handle l.ctx bytes boot_status_rsp_len)

-- What is sent for a command.
unfoldable pub loader_response : Loader → List ℕ → List ℕ
loader_response l bytes =
    let reply = boot_handle l.ctx bytes boot_status_rsp_len in
    reply.rsp ++ (reply.sw / 256) % 256 ∷ reply.sw % 256 ∷ []
