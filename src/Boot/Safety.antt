-- ===== src/Boot/Safety.antt =====
-- boot_loader.c: when an image is started, and when the slot changes.
use native_smart_card_os.Boot.Handle.{
  BootReply, boot_act_none, boot_act_restart, boot_dispatch, boot_handle, do_restart, refused,
}
use native_smart_card_os.Boot.Header.{BootHdr, boot_hdr_parse, boot_state_active}
use native_smart_card_os.Boot.Loader.{
  BootCtx, boot_slot_check, check_slot, do_activate, do_load, do_verify, slot_active,
}
use native_smart_card_os.Crc16.{crc16}
use native_smart_card_os.Common.{
  List, Option-cases, [], arith, drop, false, get_or, inl, inr, length, some, ℕ, ◌<◌, ◌≡◌, ◌≢◌, ◌≤◌,
  ◌⊎◌,
}

-- An image may be started: its header is parsed and says "active", its length fits the slot, and
-- its bytes have the checksum of the header.
abbrev pub IsStartable : BootCtx → Type 0
IsStartable ctx =
    (h : BootHdr) × (boot_hdr_parse ctx.oshdr ≡ some h)
    × (h.state ≡ boot_state_active)
    × (0 < h.image_len)
    × (h.image_len ≤ length ctx.osflash)
    × (crc16 ctx.osflash h.image_len ≡ h.image_crc)

pub slot_active_lem :
    (ctx : BootCtx) → (boot_slot_check ctx.oshdr ctx.osflash).0 ≡ slot_active → IsStartable ctx
unfolding boot_slot_check check_slot
slot_active_lem ctx e = elim (Option-cases (boot_hdr_parse ctx.oshdr)) [
  | inl bad ↦ absurd (ground (arith, bad))
  | inr (h, r) ↦ (h, r, ground (arith, r), ground (arith, r), ground (arith, r), ground (arith, r))
]

-- A reply that does not restart.
abbrev IsSafe : BootCtx → BootReply → Type 0
IsSafe ctx reply = reply.action ≡ boot_act_restart → IsStartable ctx × (reply.ctx ≡ ctx)

do_restart-IsSafe : (ctx : BootCtx) → IsSafe ctx (do_restart ctx)
unfolding do_restart
do_restart-IsSafe ctx e = (slot_active_lem ctx (ground arith), ground arith)

refused-IsSafe : (ctx : BootCtx) (sw : ℕ) → IsSafe ctx (refused sw ctx)
refused-IsSafe ctx sw e = absurd (ground arith)

boot_dispatch-IsSafe :
    (ctx : BootCtx) (ins p1 p2 : ℕ) (bytes : List ℕ) (cap : ℕ)
    → IsSafe ctx (boot_dispatch ctx ins p1 p2 bytes cap)
unfolding boot_dispatch
boot_dispatch-IsSafe ctx ins p1 p2 bytes cap e =
    let go : (boot_dispatch ctx ins p1 p2 bytes cap ≡ do_restart ctx)
        ⊎ ((boot_dispatch ctx ins p1 p2 bytes cap).action ≡ boot_act_none) =
      ground arith in
    elim go [
      | inl same ↦ ground (arith, same, do_restart-IsSafe ctx)
      | inr quiet ↦ absurd (ground (arith, quiet))
    ]

-- The boot loader restarts the chip only if the slot holds an image that may be started, and
-- the command that does so changes nothing.
pub boot_handle_restart :
    (ctx : BootCtx) (cmd : List ℕ) (cap : ℕ)
    → (boot_handle ctx cmd cap).action ≡ boot_act_restart
    → IsStartable ctx × ((boot_handle ctx cmd cap).ctx ≡ ctx)
unfolding boot_handle
boot_handle_restart ctx cmd cap e =
    let ins = get_or cmd 1 0 in
    let p1 = get_or cmd 2 0 in
    let p2 = get_or cmd 3 0 in
    ground (
      arith,
      boot_dispatch-IsSafe ctx ins p1 p2 [] cap,
      boot_dispatch-IsSafe ctx ins p1 p2 (drop 5 cmd) cap,
    )

-- The code of the slot is as it was.
abbrev pub Untouched : BootCtx → BootReply → Type 0
Untouched ctx reply = (reply.ctx.osflash ≡ ctx.osflash) × (reply.ctx.erased ≡ false)

do_verify_flash :
    (ctx : BootCtx) (bytes : List ℕ)
    → ((do_verify ctx bytes).1.osflash ≡ ctx.osflash)
      × ((do_verify ctx bytes).1.erased ≡ ctx.erased)
unfolding do_verify
do_verify_flash ctx bytes = ground arith

do_activate_flash :
    (ctx : BootCtx)
    → ((do_activate ctx).1.osflash ≡ ctx.osflash) × ((do_activate ctx).1.erased ≡ ctx.erased)
unfolding do_activate
do_activate_flash ctx = ground arith

do_restart_flash : (ctx : BootCtx) → (do_restart ctx).ctx ≡ ctx
unfolding do_restart
do_restart_flash ctx = ground arith

do_load_flash :
    (ctx : BootCtx) (p1 p2 : ℕ) (bytes : List ℕ)
    → ctx.erased ≡ false
    → (do_load ctx p1 p2 bytes).1 ≡ ctx
unfolding do_load
do_load_flash ctx p1 p2 bytes e = ground arith

boot_dispatch_flash :
    (ctx : BootCtx) (ins p1 p2 : ℕ) (bytes : List ℕ) (cap : ℕ)
    → ctx.erased ≡ false
    → ins ≢ 0x0E
    → Untouched ctx (boot_dispatch ctx ins p1 p2 bytes cap)
unfolding boot_dispatch
boot_dispatch_flash ctx ins p1 p2 bytes cap e ne = ground (
  arith,
  do_verify_flash ctx bytes,
  do_activate_flash ctx,
  do_restart_flash ctx,
  do_load_flash ctx p1 p2 bytes e,
)

-- Before an ERASE in the same session, no other command changes the code of the slot, whatever
-- its bytes are.
pub boot_handle_flash :
    (ctx : BootCtx) (cmd : List ℕ) (cap : ℕ)
    → ctx.erased ≡ false
    → get_or cmd 1 0 ≢ 0x0E
    → Untouched ctx (boot_handle ctx cmd cap)
unfolding boot_handle
boot_handle_flash ctx cmd cap e ne =
    let ins = get_or cmd 1 0 in
    let p1 = get_or cmd 2 0 in
    let p2 = get_or cmd 3 0 in
    ground (
      arith,
      boot_dispatch_flash ctx ins p1 p2 [] cap,
      boot_dispatch_flash ctx ins p1 p2 (drop 5 cmd) cap,
    )
