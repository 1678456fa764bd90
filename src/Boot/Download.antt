-- ===== src/Boot/Download.antt =====
-- boot_loader.c: the commands with which a host brings an image into the slot, one by one.
use native_smart_card_os.Boot.Erased.{cf_erase_all_lem, cf_program-erased}
use native_smart_card_os.Boot.Handle.{boot_dispatch, boot_handle, refused}
use native_smart_card_os.Boot.Loader.{
  BootCtx, boot_block_size, boot_image_plausible, do_erase, do_load,
}
use native_smart_card_os.Crc16.{crc16}
use native_smart_card_os.Store.{put_u16, put_u32}
use native_smart_card_os.Sw.{sw_ok}
use native_smart_card_os.Common.{
  All, List, [], append_assoc, arith, length, length-append, length-replicate, replicate, true, ℕ,
  ◌%◌, ◌*◌, ◌++◌, ◌+◌, ◌-◌, ◌/◌, ◌<◌, ◌∷◌, ◌≡◌, ◌≤◌,
}

-- The commands of the host.
abbrev pub erase_command : List ℕ
erase_command = 0x80 ∷ 0x0E ∷ 0x00 ∷ 0x00 ∷ []

abbrev pub load_command : ℕ → List ℕ → List ℕ
load_command i block = 0x80 ∷ 0x54 ∷ i / 256 ∷ i % 256 ∷ length block ∷ block

abbrev pub verify_command : List ℕ → List ℕ
verify_command image =
    0x80
    ∷ 0xA0
    ∷ 0x00
    ∷ 0x00
    ∷ 0x06
    ∷ (put_u32 (length image) ++ put_u16 (crc16 image (length image)))

abbrev pub activate_command : List ℕ
activate_command = 0x80 ∷ 0x44 ∷ 0x00 ∷ 0x00 ∷ []

abbrev pub restart_command : List ℕ
restart_command = 0x80 ∷ 0xF0 ∷ 0x00 ∷ 0x00 ∷ []

-- The regions of the slot: whole pages, room for a header, and no more code than the commands can address.
pub record IsSlot (ctx : BootCtx) : Type 0 where
  pub some_bytes : 0 < ctx.page_size
  pub code_pages : length ctx.osflash % ctx.page_size ≡ 0
  pub header_pages : length ctx.oshdr % ctx.page_size ≡ 0
  pub header_fits : 16 ≤ length ctx.oshdr
  pub addressable : length ctx.osflash ≤ 65536 * boot_block_size

-- An image for the slot: bytes that fit, and whose first words are a stack and an entry point.
pub record IsImage (ctx : BootCtx) (image : List ℕ) : Type 0 where
  pub all_bytes : All (λ b. b < 256) image
  pub some_words : 8 ≤ length image
  pub fits : length image ≤ length ctx.osflash
  pub plausible :
      boot_image_plausible image (length image) ctx.load_addr ctx.sram_base ctx.sram_size ≡ true

-- The context in which the bytes `p` have been loaded into an erased slot, with `m` bytes left.
abbrev pub loading : BootCtx → List ℕ → ℕ → BootCtx
loading ctx p m = record ctx {
  osflash = p ++ replicate m 0xFF;
  oshdr = replicate (length ctx.oshdr) 0xFF;
  high_water = length p;
  erased = true;
}

pub erase_step :
    (ctx : BootCtx)
    → IsSlot ctx
    → 0 < length ctx.osflash
    → boot_handle ctx erase_command 16 ≡ refused sw_ok (loading ctx [] (length ctx.osflash))
unfolding boot_handle boot_dispatch do_erase
erase_step ctx slot full = ground (
  arith,
  cf_erase_all_lem ctx.osflash ctx.page_size slot.some_bytes full slot.code_pages,
  cf_erase_all_lem ctx.oshdr ctx.page_size slot.some_bytes (omega (arith, slot.header_fits))
      slot.header_pages,
)

do_load_lem :
    (ctx : BootCtx) (p block : List ℕ) (m p1 p2 : ℕ)
    → (p1 * 256 + p2) * boot_block_size ≡ length p
    → All (λ b. b < 256) block
    → 0 < length block
    → length block ≤ boot_block_size
    → length block ≤ m
    → do_load (loading ctx p m) p1 p2 block ≡ (sw_ok, loading ctx (p ++ block) (m - length block))
unfolding do_load
do_load_lem ctx p block m p1 p2 at bytes some_bytes small room = ground (
  arith,
  cf_program-erased p block m bytes (omega (arith, some_bytes, room)) room,
  length-append p (replicate m 0xFF),
  length-append p block,
  length-replicate {A = ℕ} m 0xFF,
  append_assoc p block (replicate (m - length block) 0xFF),
)

pub load_step :
    (ctx : BootCtx) (p block : List ℕ) (i m : ℕ)
    → i * boot_block_size ≡ length p
    → All (λ b. b < 256) block
    → 0 < length block
    → length block ≤ boot_block_size
    → length block ≤ m
    → boot_handle (loading ctx p m) (load_command i block) 16
      ≡ refused sw_ok (loading ctx (p ++ block) (m - length block))
unfolding boot_handle boot_dispatch
load_step ctx p block i m at bytes some_bytes small room = ground (
  arith,
  do_load_lem ctx p block m (i / 256) (i % 256) (omega (arith, at)) bytes some_bytes small room,
)
