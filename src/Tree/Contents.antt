-- ===== src/Tree/Contents.antt =====
-- fs.c: what `fs_ef_write` does to the data that `fs_ef_read` reads.
use mathlib.Core.Path.{fun_ext}
use native_smart_card_os.Fs.{FsDescriptor, FsError, FsResult-cases, err, fs_is_usable, ok, ◌>>=◌}
use native_smart_card_os.Hal.{hal_nvm_read, hal_nvm_size, hal_nvm_sync, hal_nvm_write}
use native_smart_card_os.Store.{
  Store, check_desc, desc_raw_read, fs_store_read_data, fs_store_read_desc, fs_store_write_data,
  sync,
}
use native_smart_card_os.Store.RoundTrip.{IsStore}
use native_smart_card_os.Tree.Content.{fs_ef_read, fs_ef_write, write_target}
use native_smart_card_os.Tree.Find.{fs_root_index}
use native_smart_card_os.Tree.Invariant.{HasData, IsTree}
use native_smart_card_os.Tree.Select.{resolve}
use native_smart_card_os.Common.{
  List, ap, arith, inl, inr, length, length-splice, refl, slice-splice_after, slice-splice_before,
  slice-splice_self, splice, sym, true, ℕ, ◌+◌, ◌-◌, ◌∙◌, ◌≡◌, ◌≢◌, ◌≤◌, ◌⊎◌,
}

-- The state with the bytes of FLASH replaced.
abbrev pub with_flash : Store → List ℕ → Store
with_flash s bytes = record s { nvm = record (s.nvm) { flash_bytes = bytes } }

raw_read-with_flash :
    (bytes : List ℕ) (i : ℕ) (s : Store) → desc_raw_read (with_flash s bytes) i ≡ desc_raw_read s i
unfolding desc_raw_read hal_nvm_read
raw_read-with_flash bytes i s = refl

check_desc-with_flash :
    (bytes raw : List ℕ) (s : Store)
    → length bytes ≡ length s.nvm.flash_bytes
    → check_desc ((with_flash s bytes).nvm) raw ≡ check_desc s.nvm raw
unfolding check_desc hal_nvm_size
check_desc-with_flash bytes raw s h = ground (arith, h)

-- The descriptors do not depend on the bytes of FLASH.
pub read_desc-with_flash :
    (bytes : List ℕ) (i : ℕ) (s : Store)
    → length bytes ≡ length s.nvm.flash_bytes
    → fs_store_read_desc (with_flash s bytes) i ≡ fs_store_read_desc s i
unfolding fs_store_read_desc
read_desc-with_flash bytes i s h =
    rw (raw_read-with_flash bytes i s)
      (ap (λ f. desc_raw_read s i >>= f) (fun_ext λ raw. check_desc-with_flash bytes raw s h))

pub with_flash-IsTree :
    (bytes : List ℕ) {s : Store}
    → IsTree s
    → length bytes ≡ length s.nvm.flash_bytes
    → IsTree (with_flash s bytes)
with_flash-IsTree bytes {s} h sized =
    let same : (i : ℕ) → fs_store_read_desc (with_flash s bytes) i ≡ fs_store_read_desc s i =
      λ i. read_desc-with_flash bytes i s sized in
    record {
      stored = ground (arith, sized);
      root = rw (same fs_root_index) h.root;
      homed = λ i d r. rw (same d.parent) (h.homed i d (sym (same i) ∙ r));
      distinct = λ i j d e p q. h.distinct i j d e (sym (same i) ∙ p) (sym (same j) ∙ q);
      placed = λ i d r x. omega (arith, h.placed i d (sym (same i) ∙ r) x);
      apart = λ i j d e p q. h.apart i j d e (sym (same i) ∙ p) (sym (same j) ∙ q);
    }

pub write_data-ok :
    (at : ℕ) (src : List ℕ) {s : Store}
    → IsStore s
    → length src ≢ 0
    → at + length src ≤ length s.nvm.flash_bytes
    → fs_store_write_data at src s ≡ (ok tt, with_flash s (splice at src s.nvm.flash_bytes))
unfolding fs_store_write_data hal_nvm_write hal_nvm_sync sync
write_data-ok at src {s} h some_bytes room = ground arith

-- What holds of a write that passes every check.
pub write_target-ok :
    (s : Store) (index offset len at : ℕ)
    → write_target s index offset len ≡ ok at
    → (d : FsDescriptor) × (fs_store_read_desc s index ≡ ok d)
      × HasData d
      × (fs_is_usable d ≡ true)
      × (offset + len ≤ d.size)
      × (at ≡ d.data_offset + offset)
unfolding write_target resolve
write_target-ok s index offset len at h = elim (FsResult-cases (fs_store_read_desc s index)) [
  | inr (e, r) ↦ absurd (ground arith)
  | inl (d, r) ↦ (d, r, ground arith, ground arith, ground arith, ground arith)
]

-- A block that the write does not touch is read as before.
read_data-with_flash :
    (at o n : ℕ) (src : List ℕ) (s : Store)
    → (o + n ≤ at) ⊎ (at + length src ≤ o)
    → fs_store_read_data (with_flash s (splice at src s.nvm.flash_bytes)) o n
      ≡ fs_store_read_data s o n
unfolding fs_store_read_data hal_nvm_read
read_data-with_flash at o n src s h = ground (
  arith,
  length-splice at src s.nvm.flash_bytes,
  slice-splice_before at o n src s.nvm.flash_bytes,
  slice-splice_after at o n src s.nvm.flash_bytes,
)

-- Reading a file whose block the write does not touch.
ef_read_frame :
    (s : Store) (j at o n : ℕ) (src : List ℕ)
    → ((e : FsDescriptor)
        → fs_store_read_desc s j ≡ ok e
        → HasData e
        → (e.data_offset + e.size ≤ at) ⊎ (at + length src ≤ e.data_offset))
    → fs_ef_read (with_flash s (splice at src s.nvm.flash_bytes)) j o n ≡ fs_ef_read s j o n
unfolding fs_ef_read resolve
ef_read_frame s j at o n src away =
    let same =
      read_desc-with_flash (splice at src s.nvm.flash_bytes) j s
        (length-splice at src s.nvm.flash_bytes) in
    elim (FsResult-cases (fs_store_read_desc s j)) [
      | inr (e, r) ↦ ground (arith, same)
      | inl (d, r) ↦ ground (
        arith,
        same,
        away d r,
        read_data-with_flash at (d.data_offset + o) n src s,
        read_data-with_flash at (d.data_offset + o) (d.size - o) src s,
      )
    ]

-- What a write of the file in a slot leaves: the tree is well formed, every descriptor is as before,
-- the block reads as what was written, and every other file reads as before, at every offset.
abbrev pub Wrote : Store → ℕ → ℕ → List ℕ → Store → Type 0
Wrote s index offset src s' =
    IsTree s'
    × ((i : ℕ) → fs_store_read_desc s' i ≡ fs_store_read_desc s i)
    × (fs_ef_read s' index offset (length src) ≡ ok src)
    × ((j o n : ℕ) → j ≢ index → fs_ef_read s' j o n ≡ fs_ef_read s j o n)

pub read_back :
    (s : Store) (index at offset : ℕ) (src : List ℕ) (d : FsDescriptor)
    → IsStore s
    → fs_store_read_desc s index ≡ ok d
    → HasData d
    → fs_is_usable d ≡ true
    → offset + length src ≤ d.size
    → at ≡ d.data_offset + offset
    → length src ≢ 0
    → at + length src ≤ length s.nvm.flash_bytes
    → fs_ef_read (with_flash s (splice at src s.nvm.flash_bytes)) index offset (length src) ≡ ok src
unfolding fs_ef_read resolve fs_store_read_data hal_nvm_read
read_back s index at offset src d h r ef usable room e some_bytes inside = ground (
  arith,
  read_desc-with_flash (splice at src s.nvm.flash_bytes) index s
      (length-splice at src s.nvm.flash_bytes),
  length-splice at src s.nvm.flash_bytes,
  slice-splice_self at src s.nvm.flash_bytes,
)

-- On a well-formed tree `fs_ef_write` of at least one byte either writes: then the block reads back as what
-- was written, every other file reads as before, no descriptor changes and the tree stays well
-- formed; or it answers an error and the store is exactly what it was.
pub fs_ef_write_lem :
    (s : Store) (index offset : ℕ) (src : List ℕ)
    → IsTree s
    → length src ≢ 0
    → ((s' : Store) × (fs_ef_write index offset src s ≡ (ok tt, s')) × Wrote s index offset src s')
      ⊎ ((e : FsError) × (fs_ef_write index offset src s ≡ (err e, s)))
unfolding fs_ef_write
fs_ef_write_lem s index offset src h some_bytes =
    elim (FsResult-cases (write_target s index offset (length src))) [
      | inr (e, r) ↦ inr (e, ground (arith, r))
      | inl (at, r) ↦
          let (d, q, ef, usable, room, place) = write_target-ok s index offset (length src) at r in
          let sized = length-splice at src s.nvm.flash_bytes in
          let inside : at + length src ≤ length s.nvm.flash_bytes =
            omega (arith, h.placed index d q ef, h.stored.wellformed.data_fits) in
          inl (
            with_flash s (splice at src s.nvm.flash_bytes),
            ground (arith, r, write_data-ok at src h.stored.wellformed some_bytes inside),
            (
              with_flash-IsTree (splice at src s.nvm.flash_bytes) h sized,
              λ i. read_desc-with_flash (splice at src s.nvm.flash_bytes) i s sized,
              read_back s index at offset src d h.stored.wellformed q ef usable room place
                  some_bytes inside,
              λ j o n ne.
                  ef_read_frame s j at o n src
                    (λ e u x. omega (arith, h.apart index j d e q u ef x (λ z. ne (sym z)))),
            ),
          )
    ]
