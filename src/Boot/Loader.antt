-- ===== src/Boot/Loader.antt =====
-- src/boot/boot_loader.c: the inspection of the slot, and the steps that load an image.
use native_smart_card_os.Boot.Flash.{cf_erase_all, cf_err, cf_err_not_erased, cf_ok, cf_program}
use native_smart_card_os.Boot.Header.{
  BootHdr, boot_hdr_parse, boot_hdr_serialise, boot_hdr_size, boot_hdr_version, boot_state_active,
  boot_state_loaded,
}
use native_smart_card_os.Crc16.{crc16}
use native_smart_card_os.Store.{get_u16, get_u32, put_u16, put_u32}
use native_smart_card_os.Sw.{
  sw_conditions_not_satisfied, sw_file_not_found, sw_memory_failure, sw_not_enough_space, sw_ok,
  sw_reference_data_invalidated, sw_wrong_data, sw_wrong_length,
}
use native_smart_card_os.Common.{
  Bool, List, [], false, get_or, if◌then◌else◌, leb, length, ltb, none, not, some, true, ℕ, ◌!=◌,
  ◌%◌, ◌*◌, ◌++◌, ◌+◌, ◌-◌, ◌==◌, ◌||◌, ◌∷◌,
}

abbrev pub boot_block_size : ℕ
boot_block_size = 128

pub data BootSlotState : Type 0 where
  slot_blank slot_loaded slot_active slot_damaged : BootSlotState

-- The two regions carry their sizes.
pub record BootCtx : Type 0 where
  pub osflash : List ℕ
  pub oshdr : List ℕ
  pub page_size : ℕ
  pub load_addr : ℕ
  pub sram_base : ℕ
  pub sram_size : ℕ
  pub high_water : ℕ
  pub erased : Bool

abbrev pub boot_ctx_init : List ℕ → List ℕ → ℕ → ℕ → ℕ → ℕ → BootCtx
boot_ctx_init osflash oshdr page_size load_addr sram_base sram_size = record {
  osflash = osflash;
  oshdr = oshdr;
  page_size = page_size;
  load_addr = load_addr;
  sram_base = sram_base;
  sram_size = sram_size;
  high_water = 0;
  erased = false;
}

-- The checks on a header that has been parsed.
unfoldable pub check_slot : List ℕ → BootHdr → BootSlotState
check_slot osflash h =
    if h.image_len == 0 || ltb (length osflash) h.image_len
    then slot_damaged
    else if crc16 osflash h.image_len != h.image_crc
    then slot_damaged
    else if h.state == boot_state_active
    then slot_active
    else slot_loaded

abbrev zero_hdr : BootHdr
zero_hdr = record { version = 0; image_len = 0; image_crc = 0; state = 0 }

-- The state of the slot, and the header, which is zero where none was parsed.
unfoldable pub boot_slot_check : List ℕ → List ℕ → BootSlotState × BootHdr
boot_slot_check oshdr osflash =
    if ltb (length oshdr) boot_hdr_size
    then (slot_damaged, zero_hdr)
    else elim (boot_hdr_parse oshdr) [
      | none ↦ (slot_blank, zero_hdr)
      | some h ↦ (check_slot osflash h, h)
    ]

abbrev pub get_le32 : List ℕ → ℕ → ℕ
get_le32 img at =
    get_or img at 0
    + get_or img (at + 1) 0 * 256
    + get_or img (at + 2) 0 * 65536
    + get_or img (at + 3) 0 * 16777216

-- `pc & ~1` of an odd number is its predecessor.
unfoldable pub boot_image_plausible : List ℕ → ℕ → ℕ → ℕ → ℕ → Bool
boot_image_plausible img len load_addr sram_base sram_size =
    let sp = get_le32 img 0 in
    let pc = get_le32 img 4 in
    if ltb len 8
    then false
    else if leb sp sram_base || ltb (sram_base + sram_size) sp
    then false
    else if sp % 4 != 0
    then false
    else if pc % 2 == 0
    then false
    else if ltb (pc - 1) load_addr
    then false
    else if leb (load_addr + len) (pc - 1)
    then false
    else true

abbrev pub slot_code : BootSlotState → ℕ
slot_code slot_blank = 0
slot_code slot_loaded = 1
slot_code slot_active = 2
slot_code slot_damaged = 3

abbrev have_hdr : BootSlotState → Bool
have_hdr slot_loaded = true
have_hdr slot_active = true
have_hdr _ = false

abbrev status_bytes : BootCtx → BootSlotState → BootHdr → List ℕ
status_bytes ctx st h =
    1
    ∷ slot_code st
    ∷ (put_u32 (length ctx.osflash)
        ++ (put_u32 (if have_hdr st then h.image_len else 0)
            ++ (put_u16 (if have_hdr st then h.image_crc else 0)
                ++ (boot_block_size ∷ (if ctx.erased then 1 else 0) ∷ put_u16 ctx.high_water))))

unfoldable pub build_status : BootCtx → ℕ → ℕ × List ℕ
build_status ctx rsp_cap =
    let (st, h) = boot_slot_check ctx.oshdr ctx.osflash in
    if ltb rsp_cap 16 then (sw_wrong_length, []) else (sw_ok, status_bytes ctx st h)

-- The header is erased before the image.
unfoldable pub do_erase : BootCtx → ℕ × BootCtx
do_erase ctx = elim (cf_erase_all ctx.oshdr ctx.page_size) [
  | cf_err _ ↦ (sw_memory_failure, ctx)
  | cf_ok oshdr ↦ elim (cf_erase_all ctx.osflash ctx.page_size) [
    | cf_err _ ↦ (sw_memory_failure, record ctx { oshdr = oshdr })
    | cf_ok osflash ↦
        (sw_ok, record ctx { oshdr = oshdr; osflash = osflash; erased = true; high_water = 0 })
  ]
]

unfoldable pub do_load : BootCtx → ℕ → ℕ → List ℕ → ℕ × BootCtx
do_load ctx p1 p2 bytes =
    let off = (p1 * 256 + p2) * boot_block_size in
    let end = off + length bytes in
    if not ctx.erased
    then (sw_conditions_not_satisfied, ctx)
    else if length bytes == 0 || ltb boot_block_size (length bytes)
    then (sw_wrong_length, ctx)
    else if ltb (length ctx.osflash) end
    then (sw_not_enough_space, ctx)
    else elim (cf_program ctx.osflash off bytes) [
      | cf_err cf_err_not_erased ↦ (sw_conditions_not_satisfied, ctx)
      | cf_err _ ↦ (sw_memory_failure, ctx)
      | cf_ok osflash ↦ (
        sw_ok,
        record ctx {
          osflash = osflash;
          high_water = (if ltb ctx.high_water end then end else ctx.high_water);
        },
      )
    ]

abbrev pub loaded_hdr : ℕ → ℕ → BootHdr
loaded_hdr len crc = record {
  version = boot_hdr_version;
  image_len = len;
  image_crc = crc;
  state = boot_state_loaded;
}

unfoldable pub do_verify : BootCtx → List ℕ → ℕ × BootCtx
do_verify ctx bytes =
    let len = get_u32 bytes 0 in
    let crc = get_u16 bytes 4 in
    if length bytes != 6
    then (sw_wrong_length, ctx)
    else if not ctx.erased
    then (sw_conditions_not_satisfied, ctx)
    else if len == 0 || ltb (length ctx.osflash) len
    then (sw_not_enough_space, ctx)
    else if ltb ctx.high_water len
    then (sw_wrong_data, ctx)
    else if crc16 ctx.osflash len != crc
    then (sw_wrong_data, ctx)
    else if not (boot_image_plausible ctx.osflash len ctx.load_addr ctx.sram_base ctx.sram_size)
    then (sw_reference_data_invalidated, ctx)
    else elim (cf_program ctx.oshdr 0 (boot_hdr_serialise (loaded_hdr len crc))) [
      | cf_err _ ↦ (sw_memory_failure, ctx)
      | cf_ok oshdr ↦ (sw_ok, record ctx { oshdr = oshdr })
    ]

-- The state word is cleared without an erase.
unfoldable pub do_activate : BootCtx → ℕ × BootCtx
do_activate ctx = elim ((boot_slot_check ctx.oshdr ctx.osflash).0) [
  | slot_blank ↦ (sw_file_not_found, ctx)
  | slot_damaged ↦ (sw_reference_data_invalidated, ctx)
  | slot_active ↦ (sw_ok, ctx)
  | slot_loaded ↦ elim (cf_program ctx.oshdr 14 (0x00 ∷ 0x00 ∷ [])) [
    | cf_err _ ↦ (sw_memory_failure, ctx)
    | cf_ok oshdr ↦ (sw_ok, record ctx { oshdr = oshdr })
  ]
]
