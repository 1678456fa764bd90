-- ===== src/Rom/Decision.antt =====
-- boot_main.c: when the OS is started.
use native_smart_card_os.Boot.{
  BootAction, BootSlotState, boot_act_none, boot_act_restart, boot_handle, boot_slot_check,
  slot_active, slot_blank, slot_damaged, slot_loaded,
}
use native_smart_card_os.Boot.Safety.{IsStartable, boot_handle_restart, slot_active_lem}
use native_smart_card_os.Kernel.{LinkEvent, link_down, link_error, link_reset, received}
use native_smart_card_os.Rom.Loop.{
  Core, Loader, SlotFiles, act_on, after_reply, after_reset, boot_status_rsp_len, bootsel_asserted,
  in_loader, in_os, initial_loader, is_active, loader_round, may_boot, power_up, slot_flush,
  slot_power_on,
}
use native_smart_card_os.Common.{
  Bool, List, arith, if-split, not, refl, true, ℕ, ◌&&◌, ◌==◌, ◌||◌, ◌≡◌,
}

-- The states of the core from power-up on, with the files and the memory of the slot then.
pub data Reach (files : SlotFiles) (osflash oshdr : List ℕ) : Core → Type 0 where
  power_comes : (strap : Bool) → Reach files osflash oshdr (power_up files strap osflash oshdr)
  round :
      (l : Loader) (event : LinkEvent) (strap : Bool)
      → Reach files osflash oshdr (in_loader l)
      → Reach files osflash oshdr (loader_round l event strap)

-- Where the core is in the OS, the slot holds an image that may be started.
abbrev pub IsStarted : Core → Type 0
IsStarted (in_os l) = IsStartable l.ctx
IsStarted _ = Unit

pub flush-ctx : (l : Loader) → (slot_flush l).ctx ≡ l.ctx
unfolding slot_flush
flush-ctx l = ground arith

is_active-eq : (st : BootSlotState) → is_active st ≡ true → st ≡ slot_active
is_active-eq slot_active e = refl
is_active-eq slot_blank e = absurd (ground (arith, e))
is_active-eq slot_loaded e = absurd (ground (arith, e))
is_active-eq slot_damaged e = absurd (ground (arith, e))

started :
    (l : Loader)
    → is_active ((boot_slot_check l.ctx.oshdr l.ctx.osflash).0) ≡ true
    → IsStartable l.ctx
started l e = slot_active_lem l.ctx (is_active-eq _ e)

power_up-IsStarted :
    (files : SlotFiles) (strap : Bool) (osflash oshdr : List ℕ)
    → IsStarted (power_up files strap osflash oshdr)
unfolding power_up may_boot
power_up-IsStarted files strap osflash oshdr =
    let (code, header) = slot_power_on files osflash oshdr in
    if-split IsStarted (may_boot files strap code header)
      (λ e. started (initial_loader files (code, header)) (ground (arith, e))) (λ e. tt)

after_reset-IsStarted : (l : Loader) (strap : Bool) → IsStarted (after_reset l strap)
unfolding after_reset
after_reset-IsStarted l strap =
    if-split IsStarted
      (not (bootsel_asserted l.files.host strap)
        && is_active ((boot_slot_check l.ctx.oshdr l.ctx.osflash).0))
      (λ e. started l (ground (arith, e))) (λ e. tt)

act_on-IsStarted :
    (action : BootAction) (l : Loader)
    → (action ≡ boot_act_restart → IsStartable l.ctx)
    → IsStarted (act_on action l)
unfolding act_on
act_on-IsStarted boot_act_restart l h = rw (flush-ctx l) (h refl)
act_on-IsStarted boot_act_none l h = tt

after_reply-IsStarted :
    (l : Loader) (bytes : List ℕ)
    → IsStarted (after_reply l (boot_handle l.ctx bytes boot_status_rsp_len))
unfolding after_reply
after_reply-IsStarted l bytes =
    let reply = boot_handle l.ctx bytes boot_status_rsp_len in
    act_on-IsStarted reply.action
      (record l { ctx = reply.ctx; dirty = reply.sw == 0x9000 || l.dirty })
      (λ e.
        let (startable, same) = boot_handle_restart l.ctx bytes boot_status_rsp_len e in
        rw same startable)

round-IsStarted :
    (l : Loader) (event : LinkEvent) (strap : Bool) → IsStarted (loader_round l event strap)
unfolding loader_round
round-IsStarted l link_down strap = tt
round-IsStarted l link_reset strap = after_reset-IsStarted (slot_flush l) strap
round-IsStarted l link_error strap = tt
round-IsStarted l (received bytes) strap = after_reply-IsStarted l bytes

-- Whatever the slot and its files hold at power-up, and whatever the link delivers, with the strap held or
-- not at any time: where the boot ROM hands the core to the OS, the slot holds an image that
-- may be started, with an active header, a length that fits and the checksum of the header.
pub Reach-IsStarted :
    (files : SlotFiles) (osflash oshdr : List ℕ) (core : Core)
    → Reach files osflash oshdr core
    → IsStarted core
Reach-IsStarted files osflash oshdr core (power_comes strap) =
    power_up-IsStarted files strap osflash oshdr
Reach-IsStarted files osflash oshdr core (round l event strap path) = round-IsStarted l event strap
