-- ===== src/Rom/Restart.antt =====
-- boot_main.c: a reset after ACTIVATE, and what of the slot survives a power cycle.
use native_smart_card_os.Boot.{
  BootCtx, boot_dispatch, boot_handle, boot_slot_check, do_activate, refused, slot_active,
}
use native_smart_card_os.Boot.Activate.{do_activate_lem}
use native_smart_card_os.Boot.Download.{activate_command}
use native_smart_card_os.Kernel.{link_reset, received}
use native_smart_card_os.Rom.Decision.{flush-ctx}
use native_smart_card_os.Rom.Loop.{
  Loader, act_on, after_reply, after_reset, boot_status_rsp_len, bootsel_asserted, in_loader, in_os,
  loader_round, slot_flush, slot_power_on,
}
use native_smart_card_os.Rom.Semihost.{semihost_load-full, semihost_store}
use native_smart_card_os.Sw.{sw_ok}
use native_smart_card_os.Common.{
  Bool, List, ap, arith, false, inl, inr, length, lt→ltb, refl, some, true, ℕ, ◌<◌, ◌==◌, ◌||◌, ◌∙◌,
  ◌≡◌,
}

handle_activate :
    (ctx : BootCtx)
    → boot_handle ctx activate_command boot_status_rsp_len
      ≡ refused (do_activate ctx).0 (do_activate ctx).1
unfolding boot_handle boot_dispatch
handle_activate ctx = refl

-- A reset without the strap starts what is active.
activated :
    (l : Loader)
    → (boot_slot_check l.ctx.oshdr l.ctx.osflash).0 ≡ slot_active
    → loader_round l link_reset false ≡ in_os (slot_flush l)
unfolding loader_round after_reset bootsel_asserted
activated l active = ground (arith, active, flush-ctx l)

-- An ACTIVATE that is answered 9000 and a reset without the strap start the OS, with the code that
-- the slot held.
activate_then_reset :
    (l : Loader) (strap : Bool)
    → (boot_handle l.ctx activate_command boot_status_rsp_len).sw ≡ sw_ok
    → (l1 : Loader) × (l2 : Loader) × (loader_round l (received activate_command) strap
        ≡ in_loader l1)
      × (loader_round l1 link_reset false ≡ in_os l2)
      × (l2.ctx.osflash ≡ l.ctx.osflash)
unfolding loader_round after_reply act_on after_reset bootsel_asserted
activate_then_reset l strap e =
    let (sw, ctx') = do_activate l.ctx in
    let l1 = record l { ctx = ctx'; dirty = sw == 0x9000 || l.dirty } in
    let l2 = slot_flush l1 in
    let same = flush-ctx l1 in
    elim (do_activate_lem l.ctx) [
      | inl (good, active, code) ↦ (
        l1,
        l2,
        ground (arith, handle_activate l.ctx),
        activated l1 active,
        ap (λ c. c.osflash) same ∙ code,
      )
      | inr (bad, same_ctx) ↦ absurd (bad (ground (arith, e, handle_activate l.ctx)))
    ]

-- The slot survives a power cycle of the chip: after a flush of a changed slot to files that can be
-- written, power-up finds code and header as they were, whatever memory of their sizes holds by then.
pub slot_power_on-slot_flush :
    (l : Loader) (osflash oshdr : List ℕ)
    → l.dirty ≡ true
    → l.files.host.available ≡ true
    → l.files.host.writable ≡ true
    → (0 < length osflash) × (length l.ctx.osflash ≡ length osflash)
    → (0 < length oshdr) × (length l.ctx.oshdr ≡ length oshdr)
    → slot_power_on (slot_flush l).files osflash oshdr ≡ (l.ctx.osflash, l.ctx.oshdr)
unfolding slot_power_on slot_flush semihost_store
slot_power_on-slot_flush l osflash oshdr dirty on writable code header =
    let flushed : slot_flush l ≡ record l {
      dirty = false;
      files = record (l.files) { osflash_file = some l.ctx.osflash; oshdr_file = some l.ctx.oshdr };
    } =
      ground (arith, dirty, on, writable) in
    rw flushed (
      ground (
        arith,
        on,
        semihost_load-full l.files.host l.ctx.osflash osflash on code.1,
        semihost_load-full l.files.host l.ctx.oshdr oshdr on header.1,
        lt→ltb 0 (length osflash) code.0,
        lt→ltb 0 (length oshdr) header.0,
      ))
