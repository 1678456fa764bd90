-- ===== src/Tree/Invariant.antt =====
-- fs.c: the invariant of the file tree, and the two ways in which the table changes.
use mathlib.Core.Path.{subst}
use native_smart_card_os.Fs.{
  FsDescriptor, err, err_not_found, fs_fid_mf, fs_is_df, fs_no_parent, fs_type_ef_transparent,
  fs_type_mf, ok,
}
use native_smart_card_os.Store.{Store, fs_store_read_desc}
use native_smart_card_os.Store.Alloc.{read_desc-with_top, with_top, with_top-IsStored}
use native_smart_card_os.Store.Persist.{IsStored}
use native_smart_card_os.Tree.Find.{fs_root_index}
use native_smart_card_os.Tree.Lookup.{IsChild}
use native_smart_card_os.Common.{
  ==→eq, Bool-cases, arith, if◌then◌else◌, inl, inr, length, sym, true, ℕ, ◌+◌, ◌==◌, ◌∙◌, ◌≡◌, ◌≢◌,
  ◌≤◌, ◌⊎◌,
}

-- A file with data.
abbrev pub HasData : FsDescriptor → Type 0
HasData d = d.ftype ≡ fs_type_ef_transparent

-- The slot holds a DF or the MF.
abbrev pub IsFolder : Store → ℕ → Type 0
IsFolder s i = (d : FsDescriptor) × (fs_store_read_desc s i ≡ ok d) × (fs_is_df d ≡ true)

abbrev pub IsMf : FsDescriptor → Type 0
IsMf d = (d.ftype ≡ fs_type_mf) × (d.file_id ≡ fs_fid_mf)

-- The slot holds the MF.
abbrev pub IsRoot : Store → ℕ → Type 0
IsRoot s i = (d : FsDescriptor) × (fs_store_read_desc s i ≡ ok d) × IsMf d

-- The blocks of two files do not overlap.
abbrev pub Apart : FsDescriptor → FsDescriptor → Type 0
Apart d e = (d.data_offset + d.size ≤ e.data_offset) ⊎ (e.data_offset + e.size ≤ d.data_offset)

-- Slot 0 holds the MF; every file stands in a folder; siblings have different identifiers; the data of
-- the files lies below the data top, in blocks that do not overlap.
pub record IsTree (s : Store) : Type 0 where
  pub stored : IsStored s
  pub root : IsRoot s fs_root_index
  pub homed :
      (i : ℕ) (d : FsDescriptor)
      → fs_store_read_desc s i ≡ ok d
      → (d.parent ≡ fs_no_parent) ⊎ IsFolder s d.parent
  pub distinct :
      (i j : ℕ) (d e : FsDescriptor)
      → fs_store_read_desc s i ≡ ok d
      → fs_store_read_desc s j ≡ ok e
      → d.parent ≡ e.parent
      → d.file_id ≡ e.file_id
      → i ≡ j
  pub placed :
      (i : ℕ) (d : FsDescriptor)
      → fs_store_read_desc s i ≡ ok d
      → HasData d
      → d.data_offset + d.size ≤ s.sb.data_top
  pub apart :
      (i j : ℕ) (d e : FsDescriptor)
      → fs_store_read_desc s i ≡ ok d
      → fs_store_read_desc s j ≡ ok e
      → HasData d
      → HasData e
      → i ≢ j
      → Apart d e

-- Raising the data top keeps the tree.
pub with_top-IsTree :
    (top : ℕ) {s : Store}
    → IsTree s
    → s.sb.data_top ≤ top
    → top ≤ length s.nvm.flash_bytes
    → IsTree (with_top s top)
with_top-IsTree top {s} h up room =
    let same : (i : ℕ) → fs_store_read_desc (with_top s top) i ≡ fs_store_read_desc s i =
      λ i. read_desc-with_top top i s in
    record {
      stored = with_top-IsStored top h.stored room;
      root = rw (same fs_root_index) h.root;
      homed = λ i d r. rw (same d.parent) (h.homed i d (sym (same i) ∙ r));
      distinct = λ i j d e p q. h.distinct i j d e (sym (same i) ∙ p) (sym (same j) ∙ q);
      placed = λ i d r x. omega (arith, h.placed i d (sym (same i) ∙ r) x);
      apart = λ i j d e p q. h.apart i j d e (sym (same i) ∙ p) (sym (same j) ∙ q);
    }

-- The table after a file is written to a free slot.
module _ (s s' : Store) (i : ℕ) (d : FsDescriptor) (h : IsTree s) (kept : IsStored s')
    (top_kept : s'.sb.data_top ≡ s.sb.data_top) (free : fs_store_read_desc s i ≡ err err_not_found)
    (view : (j : ℕ)
      → fs_store_read_desc s' j ≡ (if j == i then ok d else fs_store_read_desc s j)) where
  -- A folder stays a folder.
  IsFolder-added : (j : ℕ) → IsFolder s j → IsFolder s' j
  IsFolder-added j (e, r, f) = (e, ground (arith, view j), f)

  -- A file of the new table is the new one or an old one.
  added_cases :
      (j : ℕ) (e : FsDescriptor)
      → fs_store_read_desc s' j ≡ ok e
      → ((j ≡ i) × (d ≡ e)) ⊎ (fs_store_read_desc s j ≡ ok e)
  added_cases j e r = elim (Bool-cases (j == i)) [
    | inl same ↦ inl (==→eq j i same, ground (arith, view j))
    | inr other ↦ inr (ground (arith, view j))
  ]

  homed_again :
      IsFolder s d.parent
      → (j : ℕ) (e : FsDescriptor) → fs_store_read_desc s' j ≡ ok e
      → (e.parent ≡ fs_no_parent) ⊎ IsFolder s' e.parent
  homed_again home j e r = elim (added_cases j e r) [
    | inl (same, new) ↦ inr (IsFolder-added e.parent (subst (λ x. IsFolder s x.parent) new home))
    | inr old ↦ elim (h.homed j e old) [
      | inl orphan ↦ inl orphan
      | inr folder ↦ inr (IsFolder-added e.parent folder)
    ]
  ]

  distinct_again :
      ((j : ℕ) → ¬ IsChild s j d.parent d.file_id)
      → (j k : ℕ) (a b : FsDescriptor) → fs_store_read_desc s' j ≡ ok a
      → fs_store_read_desc s' k ≡ ok b
      → a.parent ≡ b.parent
      → a.file_id ≡ b.file_id
      → j ≡ k
  distinct_again new j k a b p q x y = elim (added_cases j a p) [
    | inl (ji, da) ↦ elim (added_cases k b q) [
      | inl (ki, db) ↦ omega arith
      | inr old ↦ absurd (new k (b, old, ground arith, ground arith))
    ]
    | inr old ↦ elim (added_cases k b q) [
      | inl (ki, db) ↦ absurd (new j (a, old, ground arith, ground arith))
      | inr old' ↦ h.distinct j k a b old old' x y
    ]
  ]

  -- The invariant holds again if the file has a folder, a new identifier there, and data of its own.
  pub added-IsTree :
      IsFolder s d.parent
      → ((j : ℕ) → ¬ IsChild s j d.parent d.file_id)
      → (HasData d → d.data_offset + d.size ≤ s.sb.data_top)
      → ((j : ℕ) (e : FsDescriptor)
          → fs_store_read_desc s j ≡ ok e
          → HasData e
          → HasData d
          → e.data_offset + e.size ≤ d.data_offset)
      → IsTree s'
  added-IsTree home new inside above = record {
    stored = kept;
    root = (let (d, r, f) = h.root in (d, ground (arith, view fs_root_index), f));
    homed = homed_again home;
    distinct = distinct_again new;
    placed = λ j e r x. ground (arith, view j, inside, h.placed j e);
    apart =
        λ j k a b p q x y ne. ground (arith, view j, view k, h.apart j k a b, above j a, above k b);
  }

-- The table after a slot is freed.
module _ (s s' : Store) (i : ℕ) (h : IsTree s) (kept : IsStored s')
    (top_kept : s'.sb.data_top ≡ s.sb.data_top)
    (view : (j : ℕ)
      → fs_store_read_desc s' j
        ≡ (if j == i then err err_not_found else fs_store_read_desc s j)) where
  -- Every file that is left was there before, in another slot.
  was : (j : ℕ) (e : FsDescriptor) → fs_store_read_desc s' j ≡ ok e → fs_store_read_desc s j ≡ ok e
  was j e r = ground (arith, view j)

  IsFolder-removed : (j : ℕ) → j ≢ i → IsFolder s j → IsFolder s' j
  IsFolder-removed j ne (e, r, f) = (e, ground (arith, view j), f)

  -- The invariant holds again if the slot is not the root's and no file stands in it.
  pub removed-IsTree :
      i ≢ fs_root_index
      → ((j : ℕ) (e : FsDescriptor) → fs_store_read_desc s j ≡ ok e → j ≢ i → e.parent ≢ i)
      → IsTree s'
  removed-IsTree ne empty = record {
    stored = kept;
    root = (let (d, r, f) = h.root in (d, ground (arith, view fs_root_index), f));
    homed = λ j e r. elim (h.homed j e (was j e r)) [
      | inl orphan ↦ inl orphan
      | inr folder ↦
          inr (IsFolder-removed e.parent (empty j e (was j e r) (ground (arith, view j))) folder)
    ];
    distinct = λ j k a b p q. h.distinct j k a b (was j a p) (was k b q);
    placed = λ j e r x. omega (arith, h.placed j e (was j e r) x);
    apart = λ j k a b p q. h.apart j k a b (was j a p) (was k b q);
  }
