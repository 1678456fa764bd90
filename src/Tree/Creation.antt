-- ===== src/Tree/Creation.antt =====
-- fs.c: creating a file keeps the file tree.
use native_smart_card_os.Fs.{
  FsDescriptor, FsResult-cases, err, err_not_found, fs_invalid_index, fs_max_ef_size, fs_type_df,
  ok,
}
use native_smart_card_os.Store.{
  Store, check_desc, free_slot_loop, fs_store_find_free_slot, fs_store_read_desc,
  fs_store_slot_is_free,
}
use native_smart_card_os.Tree.Create.{check_lifecycle, check_type, create_slot, is_found}
use native_smart_card_os.Tree.Find.{fs_find_child}
use native_smart_card_os.Tree.Invariant.{HasData, IsFolder}
use native_smart_card_os.Tree.Select.{FsSelection}
use native_smart_card_os.Common.{
  arith, false, inl, inr, refl, suc, true, zero, ℕ, ◌+◌, ◌<◌, ◌≡◌, ◌≢◌, ◌≤◌, ◌⊎◌,
}

-- A slot that counts as free holds no file.
slot_is_free-not_found :
    (s : Store) (i : ℕ)
    → fs_store_slot_is_free s i ≡ true
    → fs_store_read_desc s i ≡ err err_not_found
unfolding fs_store_slot_is_free fs_store_read_desc check_desc
slot_is_free-not_found s i h = ground arith

free_slot_loop_lem :
    (n i : ℕ) (s : Store)
    → free_slot_loop n i s ≢ fs_invalid_index
    → (free_slot_loop n i s < i + n) × (fs_store_slot_is_free s (free_slot_loop n i s) ≡ true)
unfolding free_slot_loop
free_slot_loop_lem zero i s h = absurd (h refl)
free_slot_loop_lem (suc n) i s h = ground (arith, free_slot_loop_lem n (i + 1) s)

-- The slot that is handed out lies in the table and holds no file.
find_free_slot_lem :
    (s : Store)
    → fs_store_find_free_slot s ≢ fs_invalid_index
    → let slot = fs_store_find_free_slot s in
      (slot < s.sb.max_files) × (fs_store_read_desc s slot ≡ err err_not_found)
unfolding fs_store_find_free_slot
find_free_slot_lem s h = ground (
  arith,
  free_slot_loop_lem s.sb.max_files 0 s,
  slot_is_free-not_found s (free_slot_loop s.sb.max_files 0 s),
)

-- The fields of a request, as the parser and the C types bound them.
pub record IsRequest (req : FsDescriptor) : Type 0 where
  pub fid_fits : req.file_id < 65536
  pub access_fits : (req.ac_read < 256) × (req.ac_update < 256)

-- What holds of a request that passes every check.
pub record IsCreatable (s : Store) (sel : FsSelection) (req : FsDescriptor) (slot : ℕ)
    : Type 0 where
  pub folder : IsFolder s sel.cur_df
  pub typed :
      ((req.ftype ≡ fs_type_df) × (req.size ≡ 0))
      ⊎ (HasData req × (0 < req.size) × (req.size ≤ fs_max_ef_size))
  pub alive : req.lifecycle < 256
  pub new_fid : is_found (fs_find_child s sel.cur_df req.file_id) ≡ false
  pub in_table : slot < s.sb.max_files
  pub free : fs_store_read_desc s slot ≡ err err_not_found

check_type-ok :
    (req : FsDescriptor)
    → check_type req ≡ ok tt
    → ((req.ftype ≡ fs_type_df) × (req.size ≡ 0))
      ⊎ (HasData req × (0 < req.size) × (req.size ≤ fs_max_ef_size))
unfolding check_type
check_type-ok req h = ground arith

check_lifecycle-ok : (req : FsDescriptor) → check_lifecycle req ≡ ok tt → req.lifecycle < 256
unfolding check_lifecycle
check_lifecycle-ok req h = ground arith

pub create_slot-ok :
    (s : Store) (sel : FsSelection) (req : FsDescriptor) (slot : ℕ)
    → create_slot s sel req ≡ ok slot
    → IsCreatable s sel req slot
unfolding create_slot
create_slot-ok s sel req slot h = elim (FsResult-cases (fs_store_read_desc s sel.cur_df)) [
  | inr (e, r) ↦ absurd (ground arith)
  | inl (parent, r) ↦ record {
    folder = (parent, r, ground arith);
    typed = check_type-ok req (ground arith);
    alive = check_lifecycle-ok req (ground arith);
    new_fid = ground arith;
    in_table = ground (arith, find_free_slot_lem s);
    free = ground (arith, find_free_slot_lem s);
  }
]
