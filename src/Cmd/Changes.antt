-- ===== src/Cmd/Changes.antt =====
-- fs.c: what a command's one call that writes does to the tree, and to the store where it fails.
use native_smart_card_os.Fs.{FsDescriptor, FsError, err}
use native_smart_card_os.Store.{Store}
use native_smart_card_os.Tree.{FsSelection, fs_create_file, fs_delete_file, fs_ef_write}
use native_smart_card_os.Tree.Added.{fs_create_file_lem}
use native_smart_card_os.Tree.Contents.{fs_ef_write_lem}
use native_smart_card_os.Tree.Creation.{IsRequest}
use native_smart_card_os.Tree.Invariant.{IsTree}
use native_smart_card_os.Tree.Removed.{fs_delete_file_lem}
use native_smart_card_os.Common.{Bool-cases, List, arith, inl, inr, length, refl, ℕ, ◌==◌, ◌≡◌}

pub fs_ef_write-IsTree :
    (s : Store) (index offset : ℕ) (src : List ℕ)
    → IsTree s
    → IsTree (fs_ef_write index offset src s).1
fs_ef_write-IsTree s index offset src h = elim (Bool-cases (length src == 0)) [
  | inl empty ↦ unfold fs_ef_write in ground arith
  | inr some_bytes ↦ elim (fs_ef_write_lem s index offset src h (ground arith)) [
    | inl (s', e, wrote) ↦ rw e wrote.0
    | inr (x, e) ↦ rw e h
  ]
]

pub fs_create_file-IsTree :
    (s : Store) (sel : FsSelection) (req : FsDescriptor)
    → IsRequest req
    → IsTree s
    → IsTree (fs_create_file sel req s).1
fs_create_file-IsTree s sel req bounds h = elim (fs_create_file_lem s sel req h bounds) [
  | inl (slot, s', e, made) ↦ rw e made.1
  | inr (x, e) ↦ rw e h
]

pub fs_delete_file-IsTree :
    (s : Store) (sel : FsSelection) (file_id : ℕ)
    → IsTree s
    → IsTree (fs_delete_file sel file_id s).1
fs_delete_file-IsTree s sel file_id h = elim (fs_delete_file_lem s sel file_id h) [
  | inl (index, s', e, gone) ↦ rw e gone.3
  | inr (x, e) ↦ rw e h
]

-- Where one of the three fails, the store is what it was.
pub write_refused :
    (s : Store) (index offset : ℕ) (src : List ℕ) {x : FsError}
    → (fs_ef_write index offset src s).0 ≡ err x
    → IsTree s
    → (fs_ef_write index offset src s).1 ≡ s
write_refused s index offset src bad h = elim (Bool-cases (length src == 0)) [
  | inl empty ↦ unfold fs_ef_write in ground arith
  | inr some_bytes ↦ elim (fs_ef_write_lem s index offset src h (ground arith)) [
    | inl (s', e, wrote) ↦ absurd (ground (arith, e))
    | inr (x, e) ↦ rw e refl
  ]
]

pub create_refused :
    (s : Store) (sel : FsSelection) (req : FsDescriptor) {x : FsError}
    → IsRequest req
    → (fs_create_file sel req s).0 ≡ err x
    → IsTree s
    → (fs_create_file sel req s).1 ≡ s
create_refused s sel req bounds bad h = elim (fs_create_file_lem s sel req h bounds) [
  | inl (slot, s', e, made) ↦ absurd (ground (arith, e))
  | inr (x, e) ↦ rw e refl
]

pub delete_refused :
    (s : Store) (sel : FsSelection) (file_id : ℕ) {x : FsError}
    → (fs_delete_file sel file_id s).0 ≡ err x
    → IsTree s
    → (fs_delete_file sel file_id s).1 ≡ s
delete_refused s sel file_id bad h = elim (fs_delete_file_lem s sel file_id h) [
  | inl (index, s', e, gone) ↦ absurd (ground (arith, e))
  | inr (x, e) ↦ rw e refl
]
