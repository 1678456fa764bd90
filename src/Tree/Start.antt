-- ===== src/Tree/Start.antt =====
-- fs.c: `fs_init`, on a chip that holds a file system and on one that holds none.
use native_smart_card_os.Fs.{err, err_not_formatted, fs_superblock_size, ok}
use native_smart_card_os.Hal.{Nvm, hal_nvm_read, hal_nvm_size, in_range, vcard_nvm_base}
use native_smart_card_os.Store.{Store, Superblock, check_superblock, fs_sb_offset, fs_store_mount}
use native_smart_card_os.Store.Persist.{fs_store_mount-IsStored}
use native_smart_card_os.Tree.Factory.{IsRoomy, fs_personalise_lem}
use native_smart_card_os.Tree.Init.{check_root, fs_init}
use native_smart_card_os.Tree.Invariant.{IsTree}
use native_smart_card_os.Common.{arith, false, get_or, inl, inr, slice, sym, ◌≡◌, ◌⊎◌}

-- Where the superblock would stand, there is no magic number: one of the four bytes differs from "SCOS".
abbrev pub IsUnformatted : Nvm → Type 0
IsUnformatted nvm =
    let sb = slice fs_sb_offset fs_superblock_size nvm.eeprom_bytes in
    ¬ (
      (get_or sb 0 0 ≡ 0x53)
      × (get_or sb 1 0 ≡ 0x43)
      × (get_or sb 2 0 ≡ 0x4F)
      × (get_or sb 3 0 ≡ 0x53))

fs_store_mount-IsUnformatted :
    (s : Store)
    → IsRoomy s.nvm
    → IsUnformatted s.nvm
    → fs_store_mount s
      ≡ (err err_not_formatted, record s { sb = record (s.sb) { mounted = false } })
unfolding fs_store_mount check_superblock hal_nvm_read hal_nvm_size in_range vcard_nvm_base
fs_store_mount-IsUnformatted s h blank_sb = ground (arith, h, blank_sb)

-- The chip of a card: it holds a file tree, or it has room for the factory's and holds none.
abbrev pub IsChip : Nvm → Type 0
IsChip nvm = ((s : Store) × IsTree s × (s.nvm ≡ nvm)) ⊎ (IsRoomy nvm × IsUnformatted nvm)

-- Whatever RAM holds after a power cycle, `fs_init` finds the file tree that the chip holds, exactly as
-- it was left.
pub fs_init-IsTree :
    (s : Store) (lost : Superblock) → IsTree s → fs_init (record s { sb = lost }) ≡ (ok tt, s)
unfolding fs_init check_root
fs_init-IsTree s lost h =
    let (mf, r, is_mf) = h.root in ground (arith, fs_store_mount-IsStored s lost h.stored, r, is_mf)

pub fs_init-IsUnformatted :
    (s : Store)
    → IsRoomy s.nvm
    → IsUnformatted s.nvm
    → (s' : Store) × (fs_init s ≡ (ok tt, s')) × IsTree s'
unfolding fs_init
fs_init-IsUnformatted s h blank_sb =
    let (s', e, tree, there, only) =
      fs_personalise_lem (record s { sb = record (s.sb) { mounted = false } }) h in
    (s', ground (arith, fs_store_mount-IsUnformatted s h blank_sb, e), tree)

-- On every chip of a card, whatever RAM holds, `fs_init` succeeds, and the file tree is well formed.
pub fs_init-IsChip :
    (s : Store) → IsChip s.nvm → (s' : Store) × (fs_init s ≡ (ok tt, s')) × IsTree s'
fs_init-IsChip s (inl (t, tree, same)) = (t, rw (sym same) (fs_init-IsTree t s.sb tree), tree)
fs_init-IsChip s (inr (roomy, blank_sb)) = fs_init-IsUnformatted s roomy blank_sb
