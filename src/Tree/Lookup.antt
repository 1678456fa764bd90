-- ===== src/Tree/Lookup.antt =====
-- fs.c: what the searches through the descriptor table find.
use native_smart_card_os.Fs.{
  FsDescriptor, FsResult, FsResult-cases, err, err_corrupt, err_not_found, ok,
}
use native_smart_card_os.Hal.{Nvm}
use native_smart_card_os.Store.{
  Store, check_desc, desc_raw_read, fs_store_max_files, fs_store_read_desc,
}
use native_smart_card_os.Store.RoundTrip.{IsStore}
use native_smart_card_os.Store.Slots.{desc_raw_read-ok}
use native_smart_card_os.Tree.Find.{find_child_loop, fs_find_child}
use native_smart_card_os.Common.{
  Bool-cases, List, arith, inl, inr, refl, suc, true, zero, ℕ, ◌&&◌, ◌+◌, ◌<◌, ◌==◌, ◌≡◌, ◌≤◌, ◌⊎◌,
}

-- The slot holds a readable child of that parent with that identifier.
abbrev pub IsChild : Store → ℕ → ℕ → ℕ → Type 0
IsChild s i parent file_id =
    (d : FsDescriptor) × (fs_store_read_desc s i ≡ ok d)
    × (d.parent ≡ parent)
    × (d.file_id ≡ file_id)

-- A slot that is read is a file, free or corrupt.
abbrev IsPlain : FsResult FsDescriptor → Type 0
IsPlain (ok d) = Unit
IsPlain (err err_not_found) = Unit
IsPlain (err err_corrupt) = Unit
IsPlain (err e) = ⊥

check_desc-IsPlain : (nvm : Nvm) (raw : List ℕ) → IsPlain (check_desc nvm raw)
unfolding check_desc
check_desc-IsPlain nvm raw = ground arith

plain_cases :
    (r : FsResult FsDescriptor)
    → IsPlain r
    → ((d : FsDescriptor) × (r ≡ ok d)) ⊎ (r ≡ err err_not_found) ⊎ (r ≡ err err_corrupt)
plain_cases (ok d) h = inl (d, refl)
plain_cases (err err_not_found) h = inr (inl refl)
plain_cases (err err_corrupt) h = inr (inr refl)
plain_cases (err _) h = absurd h

-- Within the table a slot is a file, free or corrupt: reading it fails in no other way.
pub read_desc_cases :
    (s : Store) (i : ℕ)
    → IsStore s
    → i < s.sb.max_files
    → ((d : FsDescriptor) × (fs_store_read_desc s i ≡ ok d))
      ⊎ (fs_store_read_desc s i ≡ err err_not_found)
      ⊎ (fs_store_read_desc s i ≡ err err_corrupt)
unfolding fs_store_read_desc
read_desc_cases s i h lt = rw (desc_raw_read-ok h i lt) (plain_cases _ (check_desc-IsPlain s.nvm _))

-- Beyond the table nothing is read.
pub read_desc_bound :
    (s : Store) (i : ℕ) {d : FsDescriptor}
    → fs_store_read_desc s i ≡ ok d
    → (s.sb.mounted ≡ true) × (i < s.sb.max_files)
unfolding fs_store_read_desc desc_raw_read
read_desc_bound s i h = ground arith

find_child_loop_ok :
    (n i : ℕ) (s : Store) (parent file_id j : ℕ)
    → find_child_loop n i s parent file_id ≡ ok j
    → (i ≤ j) × (j < i + n) × IsChild s j parent file_id
unfolding find_child_loop
find_child_loop_ok zero i s parent file_id j h = cc
find_child_loop_ok (suc n) i s parent file_id j h = elim (FsResult-cases (fs_store_read_desc s i)) [
  | inl (d, e) ↦ elim (Bool-cases (d.parent == parent && d.file_id == file_id)) [
    | inl same ↦ (ground arith, ground arith, (d, ground arith, ground arith, ground arith))
    | inr other ↦
        let (lo, hi, c) = find_child_loop_ok n (i + 1) s parent file_id j (ground arith) in
        (omega arith, omega arith, c)
  ]
  | inr (x, e) ↦
      let (lo, hi, c) = find_child_loop_ok n (i + 1) s parent file_id j (ground arith) in
      (omega arith, omega arith, c)
]

find_child_loop_none :
    (n i : ℕ) (s : Store) (parent file_id j : ℕ)
    → find_child_loop n i s parent file_id ≡ err err_not_found
    → i ≤ j
    → j < i + n
    → ¬ IsChild s j parent file_id
unfolding find_child_loop
find_child_loop_none zero i s parent file_id j h lo hi c = absurd (omega arith)
find_child_loop_none (suc n) i s parent file_id j h lo hi (d, e, p, f) =
    elim (Bool-cases (i == j)) [
      | inl same ↦ ground arith
      | inr other ↦ elim (FsResult-cases (fs_store_read_desc s i)) [
        | inl (c, r) ↦ elim (Bool-cases (c.parent == parent && c.file_id == file_id)) [
          | inl hit ↦ absurd (ground arith)
          | inr miss ↦
              find_child_loop_none n (i + 1) s parent file_id j (ground arith) (ground arith)
                (omega arith) (d, e, p, f)
        ]
        | inr (x, r) ↦
            find_child_loop_none n (i + 1) s parent file_id j (ground arith) (ground arith)
              (omega arith) (d, e, p, f)
      ]
    ]

-- A mounted store has as many slots as its superblock says.
max_files-mounted : (s : Store) → s.sb.mounted ≡ true → fs_store_max_files s ≡ s.sb.max_files
max_files-mounted s on = rw on

-- What the search finds is a child of the parent with that identifier.
pub fs_find_child-ok :
    (s : Store) (parent file_id j : ℕ)
    → fs_find_child s parent file_id ≡ ok j
    → IsChild s j parent file_id
unfolding fs_find_child
fs_find_child-ok s parent file_id j h =
    (find_child_loop_ok (fs_store_max_files s) 0 s parent file_id j h).2

-- Where the search reports that there is no such file, no slot of the table holds one.
pub fs_find_child-none :
    (s : Store) (parent file_id j : ℕ)
    → fs_find_child s parent file_id ≡ err err_not_found
    → ¬ IsChild s j parent file_id
unfolding fs_find_child
fs_find_child-none s parent file_id j h (d, e, p, f) =
    let (on, lt) = read_desc_bound s j e in
    find_child_loop_none (fs_store_max_files s) 0 s parent file_id j h (omega arith)
      (rw (max_files-mounted s on) (omega arith)) (d, e, p, f)

find_child_loop_cases :
    (n i : ℕ) (s : Store) (parent file_id : ℕ)
    → IsStore s
    → i + n ≤ s.sb.max_files
    → ((j : ℕ) × (find_child_loop n i s parent file_id ≡ ok j))
      ⊎ (find_child_loop n i s parent file_id ≡ err err_not_found)
unfolding find_child_loop
find_child_loop_cases zero i s parent file_id h room = inr refl
find_child_loop_cases (suc n) i s parent file_id h room =
    let rest = find_child_loop_cases n (i + 1) s parent file_id h (omega arith) in
    let skip : Type 0 =
      find_child_loop (suc n) i s parent file_id ≡ find_child_loop n (i + 1) s parent file_id in
    elim (read_desc_cases s i h (omega arith)) [
      | inl (d, e) ↦ elim (Bool-cases (d.parent == parent && d.file_id == file_id)) [
        | inl hit ↦ inl (i, ground arith)
        | inr miss ↦ let q : skip = ground arith in rw q rest
      ]
      | inr (inl e) ↦ let q : skip = ground arith in rw q rest
      | inr (inr e) ↦ let q : skip = ground arith in rw q rest
    ]

-- On a well-formed store the search finds a child or reports that there is none.
pub fs_find_child_cases :
    (s : Store) (parent file_id : ℕ)
    → IsStore s
    → ((j : ℕ) × (fs_find_child s parent file_id ≡ ok j))
      ⊎ (fs_find_child s parent file_id ≡ err err_not_found)
unfolding fs_find_child
fs_find_child_cases s parent file_id h =
    rw (max_files-mounted s h.is_mounted)
      (find_child_loop_cases s.sb.max_files 0 s parent file_id h (omega arith))
