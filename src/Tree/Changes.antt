-- ===== src/Tree/Changes.antt =====
-- fs.c: creating and deleting do to the files what is promised, and nothing else.
use native_smart_card_os.Fs.{FsDescriptor, FsResult, err, err_not_found, fs_type_df, ok}
use native_smart_card_os.Store.{Store, fs_store_read_desc}
use native_smart_card_os.Store.Sizes.{SameFlash}
use native_smart_card_os.Tree.Added.{Created, fs_create_file_lem, new_offset}
use native_smart_card_os.Tree.Create.{fs_create_file, fs_delete_file, new_desc}
use native_smart_card_os.Tree.Creation.{IsRequest}
use native_smart_card_os.Tree.Invariant.{HasData, IsTree}
use native_smart_card_os.Tree.Refines.{fs_create_file-SameFlash, fs_delete_file-SameFlash}
use native_smart_card_os.Tree.Removed.{fs_delete_file_lem}
use native_smart_card_os.Tree.Lifetime.{creation}
use native_smart_card_os.Tree.Select.{FsSelection}
use native_smart_card_os.Tree.Spec.{
  Does, File, attributes_for, contents_of, create_op, created, delete_op, deleted, file_of,
  forget_place, put_file, view,
}
use native_smart_card_os.Tree.Written.{is_ok, seen-Effect, view_free, view_slot}
use native_smart_card_os.Common.{
  Bool-cases, ap, arith, refl, if◌then◌else◌, inl, inr, length, length-slice, none, some, ℕ, ◌+◌,
  ◌==◌, ◌≡◌, ◌≤◌, ◌⊎◌,
}

-- A descriptor more or less, with the bytes of FLASH as they were.
added_view :
    (s s' : Store) (slot : ℕ) (r : FsResult FsDescriptor)
    → SameFlash s s'
    → ((j : ℕ) → fs_store_read_desc s' j ≡ (if j == slot then r else fs_store_read_desc s j))
    → (j : ℕ) → view s' j ≡ put_file (view s) slot (file_of r s.nvm.flash_bytes) j
unfolding view
added_view s s' slot r same table j = elim (Bool-cases (j == slot)) [
  | inl here ↦ ground (arith, here, table j, same)
  | inr elsewhere ↦ ground (arith, elsewhere, table j, same)
]

-- The bytes of a new file are as many as asked for.
new_contents :
    (s s' : Store) (sel : FsSelection) (req : FsDescriptor) (slot : ℕ)
    → SameFlash s s'
    → Created s sel req slot s'
    → ((req.ftype ≡ fs_type_df) × (req.size ≡ 0)) ⊎ HasData req
    → length (contents_of (new_desc sel req (new_offset s req)) s.nvm.flash_bytes) ≡ req.size
new_contents s s' sel req slot flat (free, tree, view') (inl (df, empty)) =
    ground (arith, df, empty)
new_contents s s' sel req slot flat (free, tree, view') (inr ef) =
    let d = new_desc sel req (new_offset s req) in
    let there : fs_store_read_desc s' slot ≡ ok d = ground (arith, view' slot) in
    let inside : d.data_offset + d.size ≤ length s.nvm.flash_bytes =
      omega
        (arith, tree.placed slot d there ef, tree.stored.wellformed.data_fits, ap length flat) in
    ground (arith, ef, length-slice d.data_offset d.size s.nvm.flash_bytes inside)

pub fs_create_file-Does :
    (s : Store) (sel : FsSelection) (req : FsDescriptor)
    → IsTree s
    → IsRequest req
    → let (r, s') = fs_create_file sel req s in
      Does (create_op sel req) (is_ok r) (view s) (view s')
fs_create_file-Does s sel req h bounds = elim (fs_create_file_lem s sel req h bounds) [
  | inr (x, e) ↦ rw e refl
  | inl (slot, s', e, made) ↦
      let d = new_desc sel req (new_offset s req) in
      let flat = fs_create_file-SameFlash s sel req in
      let go = (creation s s' sel req slot h bounds e).1 in
      let contents = contents_of d s.nvm.flash_bytes in
      rw e (
        seen-Effect (create_op sel req) s s' slot
          (some (record { attributes = attributes_for sel req; contents = contents }))
          (added_view s s' slot (ok d) (rw e at flat) made.2)
          (created slot sel req contents (view_free s slot made.0) (
            new_contents s s' sel req slot (rw e at flat) made
              (elim go.typed [ inl df ↦ inl df | inr (ef, some_data, small) ↦ inr ef ]))))
]

pub fs_delete_file-Does :
    (s : Store) (sel : FsSelection) (file_id : ℕ)
    → IsTree s
    → let (r, s') = fs_delete_file sel file_id s in
      Does (delete_op sel file_id) (is_ok r) (view s) (view s')
fs_delete_file-Does s sel file_id h = elim (fs_delete_file_lem s sel file_id h) [
  | inr (x, e) ↦ rw e refl
  | inl (slot, s', e, gone) ↦
      let (d, r, in_df, named) = gone.0 in
      let flat = fs_delete_file-SameFlash s sel file_id in
      let f : File = record {
        attributes = forget_place d;
        contents = contents_of d s.nvm.flash_bytes;
      } in
      rw e (
        seen-Effect (delete_op sel file_id) s s' slot none
          (added_view s s' slot (err err_not_found) (rw e at flat) gone.4)
          (deleted slot sel file_id f (view_slot s slot d r) in_df named))
]
