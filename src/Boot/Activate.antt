-- ===== src/Boot/Activate.antt =====
-- boot_loader.c: ACTIVATE.
use native_smart_card_os.Boot.Flash.{cf_program}
use native_smart_card_os.Boot.Header.{BootHdr, boot_hdr_parse, boot_state_active}
use native_smart_card_os.Boot.Loader.{
  BootCtx, boot_slot_check, check_slot, do_activate, slot_active, slot_loaded,
}
use native_smart_card_os.Crc16.{crc16}
use native_smart_card_os.Sw.{sw_ok}
use native_smart_card_os.Common.{
  List, Option-cases, [], arith, get_or, get_or-splice_before, get_or-splice_self, inl, inr, length,
  length-splice, refl, some, splice, take-splice, ℕ, ◌<◌, ◌∷◌, ◌≡◌, ◌≢◌, ◌≤◌, ◌⊎◌,
}

-- The header region after the state word is cleared.
abbrev pub cleared_state : List ℕ → List ℕ
cleared_state oshdr = splice 14 (0x00 ∷ 0x00 ∷ []) oshdr

crc16-cleared_state : (oshdr : List ℕ) → crc16 (cleared_state oshdr) 12 ≡ crc16 oshdr 12
unfolding crc16
crc16-cleared_state oshdr = rw (take-splice 14 12 (0x00 ∷ 0x00 ∷ []) oshdr (omega arith)) refl

pub parse-cleared_state :
    (oshdr : List ℕ) (h : BootHdr)
    → 16 ≤ length oshdr
    → boot_hdr_parse oshdr ≡ some h
    → boot_hdr_parse (cleared_state oshdr) ≡ some (record h { state = boot_state_active })
unfolding boot_hdr_parse
parse-cleared_state oshdr h room e =
    let old : (i : ℕ) → i < 14 → get_or (cleared_state oshdr) i 0 ≡ get_or oshdr i 0 =
      λ i lt. get_or-splice_before 14 i 0 (0x00 ∷ 0x00 ∷ []) oshdr lt in
    ground (
      arith,
      e,
      crc16-cleared_state oshdr,
      old 0 (omega arith),
      old 1 (omega arith),
      old 2 (omega arith),
      old 3 (omega arith),
      old 4 (omega arith),
      old 5 (omega arith),
      old 6 (omega arith),
      old 7 (omega arith),
      old 8 (omega arith),
      old 9 (omega arith),
      old 10 (omega arith),
      old 11 (omega arith),
      old 12 (omega arith),
      old 13 (omega arith),
      get_or-splice_self 14 0 0 (0x00 ∷ 0x00 ∷ []) oshdr (omega arith) room,
      get_or-splice_self 14 1 0 (0x00 ∷ 0x00 ∷ []) oshdr (omega arith) room,
    )

pub check_slot-active :
    (osflash : List ℕ) (h : BootHdr)
    → check_slot osflash h ≡ slot_loaded
    → check_slot osflash (record h { state = boot_state_active }) ≡ slot_active
unfolding check_slot
check_slot-active osflash h e = ground arith

-- Where ACTIVATE is answered 9000, the slot holds an active image afterwards, with the code of the slot as it
-- was; and otherwise nothing has changed.
pub do_activate_lem :
    (ctx : BootCtx)
    → let (sw, ctx') = do_activate ctx in
      ((sw ≡ sw_ok)
        × ((boot_slot_check ctx'.oshdr ctx'.osflash).0 ≡ slot_active)
        × (ctx'.osflash ≡ ctx.osflash))
      ⊎ ((sw ≢ sw_ok) × (ctx' ≡ ctx))
unfolding do_activate boot_slot_check cf_program
do_activate_lem ctx = elim (Option-cases (boot_hdr_parse ctx.oshdr)) [
  | inl unreadable ↦ ground (arith, unreadable)
  | inr (h, e) ↦ ground (
    arith,
    e,
    check_slot-active ctx.osflash h,
    parse-cleared_state ctx.oshdr h,
    length-splice 14 (0x00 ∷ 0x00 ∷ []) ctx.oshdr,
  )
]
