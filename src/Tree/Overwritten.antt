-- ===== src/Tree/Overwritten.antt =====
-- fs.c: a write that has a file, and room in it, and what the searches find after it.
use native_smart_card_os.Fs.{FsDescriptor, fs_is_usable, ok}
use native_smart_card_os.Store.{Store, fs_store_max_files, fs_store_read_desc}
use native_smart_card_os.Tree.Content.{fs_ef_read, fs_ef_write, write_target}
use native_smart_card_os.Tree.Contents.{
  read_back, read_desc-with_flash, with_flash, with_flash-IsTree, write_data-ok,
}
use native_smart_card_os.Tree.Find.{find_by_sfi_loop, fs_find_by_sfi}
use native_smart_card_os.Tree.Invariant.{HasData, IsTree}
use native_smart_card_os.Tree.Select.{resolve}
use native_smart_card_os.Common.{
  List, arith, length, length-splice, refl, splice, suc, true, zero, ℕ, ◌+◌, ◌≡◌, ◌≢◌, ◌≤◌,
}

find_by_sfi_loop-with_flash :
    (bytes : List ℕ) (n i df sfi : ℕ) (s : Store)
    → length bytes ≡ length s.nvm.flash_bytes
    → find_by_sfi_loop n i (with_flash s bytes) df sfi ≡ find_by_sfi_loop n i s df sfi
unfolding find_by_sfi_loop
find_by_sfi_loop-with_flash bytes zero i df sfi s h = refl
find_by_sfi_loop-with_flash bytes (suc n) i df sfi s h =
    let rest = find_by_sfi_loop-with_flash bytes n (i + 1) df sfi s h in
    ground (arith, read_desc-with_flash bytes i s h, rest)

-- A short identifier names the same file, whatever the bytes of FLASH are.
pub find_by_sfi-with_flash :
    (bytes : List ℕ) (df sfi : ℕ) (s : Store)
    → length bytes ≡ length s.nvm.flash_bytes
    → fs_find_by_sfi (with_flash s bytes) df sfi ≡ fs_find_by_sfi s df sfi
unfolding fs_find_by_sfi
find_by_sfi-with_flash bytes df sfi s h =
    rw (find_by_sfi_loop-with_flash bytes (fs_store_max_files s) 0 df sfi s h) refl

-- A slot that holds a usable file with that many bytes from the offset.
pub record HasRoom (s : Store) (index offset n : ℕ) (d : FsDescriptor) : Type 0 where
  pub slot : fs_store_read_desc s index ≡ ok d
  pub has_data : HasData d
  pub usable : fs_is_usable d ≡ true
  pub room : offset + n ≤ d.size

-- The bytes of FLASH with the file's block written.
abbrev pub overwritten : Store → FsDescriptor → ℕ → List ℕ → List ℕ
overwritten s d offset src = splice (d.data_offset + offset) src s.nvm.flash_bytes

-- Where the file has room, `fs_ef_write` writes.
pub fs_ef_write-HasRoom :
    (s : Store) (index offset : ℕ) (src : List ℕ) (d : FsDescriptor)
    → IsTree s
    → HasRoom s index offset (length src) d
    → length src ≢ 0
    → fs_ef_write index offset src s ≡ (ok tt, with_flash s (overwritten s d offset src))
unfolding fs_ef_write write_target resolve
fs_ef_write-HasRoom s index offset src d h f some_bytes =
    let below = h.placed index d f.slot f.has_data in
    ground (
      arith,
      f,
      write_data-ok (d.data_offset + offset) src h.stored.wellformed some_bytes
          (omega (arith, below, f.room, h.stored.wellformed.data_fits)),
    )

-- And `fs_ef_read` gives back what was written.
pub fs_ef_read-overwritten :
    (s : Store) (index offset : ℕ) (src : List ℕ) (d : FsDescriptor)
    → IsTree s
    → HasRoom s index offset (length src) d
    → length src ≢ 0
    → fs_ef_read (with_flash s (overwritten s d offset src)) index offset (length src) ≡ ok src
fs_ef_read-overwritten s index offset src d h f some_bytes =
    let below = h.placed index d f.slot f.has_data in
    read_back s index (d.data_offset + offset) offset src d h.stored.wellformed f.slot f.has_data
      f.usable f.room refl some_bytes (omega (arith, below, f.room, h.stored.wellformed.data_fits))

pub overwritten-IsTree :
    (s : Store) (offset : ℕ) (src : List ℕ) (d : FsDescriptor)
    → IsTree s
    → IsTree (with_flash s (overwritten s d offset src))
overwritten-IsTree s offset src d h =
    with_flash-IsTree (overwritten s d offset src) h
      (length-splice (d.data_offset + offset) src s.nvm.flash_bytes)
