-- ===== src/Scv1/Bringup.antt =====
-- startup.c: the memory in which `main` starts, and which faults are forgiven.
use native_smart_card_os.Scv1.Startup.{
  Exception, Handled, Layout, Semihost, Trap, after_trap, copy_data, frame_pc_index, faults, halted,
  handle_exception, opened, refused, resumed, scv1_fault_c, scv1_reset_handler, semihost_probe,
  zero_bss,
}
use native_smart_card_os.Common.{
  Bool, List, [], ap, arith, false, get_or, get_or-splice_self, inl, inr, length, length-replicate,
  length-splice, length-take, refl, replicate, slice, slice-splice_after, slice-splice_before,
  slice-splice_self, splice, splice-nil, overwrite, suc, take, true, zero, ℕ, ◌%◌, ◌+◌, ◌-◌, ◌<◌,
  ◌^◌, ◌∙◌, ◌∷◌, ◌≡◌, ◌≤◌, ◌⊎◌,
}

-- A word and the block behind it are one block.
splice_next :
    (dst x : ℕ) (ys mem : List ℕ)
    → splice (dst + 1) ys (splice dst (x ∷ []) mem) ≡ splice dst (x ∷ ys) mem
unfolding splice overwrite
splice_next zero x ys [] = refl
splice_next zero x ys (m ∷ mem) = refl
splice_next (suc dst) x ys [] = let e : suc dst + 1 ≡ suc (dst + 1) = omega arith in rw e refl
splice_next (suc dst) x ys (m ∷ mem) =
    let e : suc dst + 1 ≡ suc (dst + 1) = omega arith in
    rw e (ap (λ t. m ∷ t) (splice_next dst x ys mem))

copy_data_lem :
    (n : ℕ) (src : List ℕ) (dst : ℕ) (mem : List ℕ)
    → n ≤ length src
    → copy_data n src dst mem ≡ splice dst (take n src) mem
unfolding copy_data
copy_data_lem zero src dst mem enough = rw (splice-nil dst mem) refl
copy_data_lem (suc n) [] dst mem enough = absurd (omega arith)
copy_data_lem (suc n) (w ∷ src) dst mem enough =
    copy_data_lem n src (dst + 1) (splice dst (w ∷ []) mem) (omega arith)
    ∙ splice_next dst w (take n src) mem

zero_bss_lem : (n p : ℕ) (mem : List ℕ) → zero_bss n p mem ≡ splice p (replicate n 0) mem
unfolding zero_bss
zero_bss_lem zero p mem = rw (splice-nil p mem) refl
zero_bss_lem (suc n) p mem =
    zero_bss_lem n (p + 1) (splice p (0 ∷ []) mem) ∙ splice_next p 0 (replicate n 0) mem

-- The sections as the linker lays them out, in a memory of `size` words, with `given` words of initial values.
pub record IsLayout (at : Layout) (given size : ℕ) : Type 0 where
  pub data_ordered : at.sdata ≤ at.edata
  pub apart : at.edata ≤ at.sbss
  pub bss_ordered : at.sbss ≤ at.ebss
  pub inside : at.ebss ≤ size
  pub all_given : at.edata - at.sdata ≤ given

-- The block lies outside both sections.
abbrev pub Outside : Layout → ℕ → ℕ → Type 0
Outside at o n = (o + n ≤ at.sdata) ⊎ (at.edata ≤ o) × (o + n ≤ at.sbss) ⊎ (at.ebss ≤ o)

slice_written :
    (off n : ℕ) (src mem : List ℕ)
    → length src ≡ n
    → off + n ≤ length mem
    → slice off n (splice off src mem) ≡ src
slice_written off n src mem size room =
    rw⁻¹ size (slice-splice_self off src mem (omega (arith, size, room)))

untouched :
    (off o n : ℕ) (src mem : List ℕ)
    → (o + n ≤ off) ⊎ (off + length src ≤ o)
    → slice o n (splice off src mem) ≡ slice o n mem
untouched off o n src mem (inl before) = slice-splice_before off o n src mem before
untouched off o n src mem (inr behind) = slice-splice_after off o n src mem behind

-- When `main` is called, whatever memory held at the reset, every initialised variable has its initial value, every
-- other static variable is zero, and no word outside these two sections has changed.
pub scv1_reset_handler_lem :
    (at : Layout) (sidata mem : List ℕ)
    → IsLayout at (length sidata) (length mem)
    → let after = scv1_reset_handler at sidata mem in
      (slice at.sdata (at.edata - at.sdata) after ≡ take (at.edata - at.sdata) sidata)
      × (slice at.sbss (at.ebss - at.sbss) after ≡ replicate (at.ebss - at.sbss) 0)
      × ((o n : ℕ) → Outside at o n → slice o n after ≡ slice o n mem)
unfolding scv1_reset_handler
scv1_reset_handler_lem at sidata mem h =
    let initial : List ℕ = take (at.edata - at.sdata) sidata in
    let zeros : List ℕ = replicate (at.ebss - at.sbss) 0 in
    let loaded = splice at.sdata initial mem in
    let initial_size : length initial ≡ at.edata - at.sdata =
      omega (arith, h.all_given, length-take (at.edata - at.sdata) sidata) in
    let zeros_size : length zeros ≡ at.ebss - at.sbss = length-replicate (at.ebss - at.sbss) 0 in
    let same : scv1_reset_handler at sidata mem ≡ splice at.sbss zeros loaded =
      zero_bss_lem (at.ebss - at.sbss) at.sbss _
      ∙ ap (splice at.sbss zeros)
          (copy_data_lem (at.edata - at.sdata) sidata at.sdata mem h.all_given) in
    (
      rw same (
          slice-splice_before at.sbss at.sdata (at.edata - at.sdata) zeros loaded (omega (arith, h))
          ∙ slice_written at.sdata (at.edata - at.sdata) initial mem initial_size
              (omega (arith, h))),
      rw same (
          slice_written at.sbss (at.ebss - at.sbss) zeros loaded zeros_size
            (omega (arith, h, length-splice at.sdata initial mem))),
      λ o n out. rw same (
          untouched at.sbss o n zeros loaded (omega (arith, h, out, zeros_size))
          ∙ untouched at.sdata o n initial mem (omega (arith, h, out, initial_size))),
    )

-- The core has halted.
abbrev pub Halts : Handled → Type 0
Halts (halted s text) = Unit
Halts (resumed s frame) = ⊥

handle_exception-Halts :
    (e : Exception) (s : Semihost) (frame : List ℕ)
    → s.in_flight ≡ false
    → Halts (handle_exception e s frame)
unfolding handle_exception scv1_fault_c
handle_exception-Halts e s frame quiet = ground (arith, quiet)

-- Whether a debugger's host has answered the trap.
abbrev pub answers : Trap → Bool
answers (opened fd) = true
answers _ = false

-- The frame of a trap that faults holds the words of an exception, and a return address.
abbrev pub IsTrap : Trap → Type 0
IsTrap (faults frame) =
    (frame_pc_index < length frame) × (get_or frame frame_pc_index 0 + 2 < 2 ^ 32)
IsTrap _ = Unit

-- The core goes on behind the trap: where the trap was a fault, at the address two bytes on.
abbrev pub GoesOn : Trap → List ℕ → Type 0
GoesOn (faults frame) frame' = get_or frame' frame_pc_index 0 ≡ get_or frame frame_pc_index 0 + 2
GoesOn _ frame' = Unit

abbrev after_probe : Bool → Semihost
after_probe answered = record { available = answered; probed = true; in_flight = false }

probed :
    (trap : Trap) (s : Semihost)
    → s.probed ≡ false
    → IsTrap trap
    → (s' : Semihost) × (frame' : List ℕ) × (semihost_probe trap s ≡ resumed s' frame')
      × (s'.available ≡ answers trap)
      × (s'.in_flight ≡ false)
      × (s'.probed ≡ true)
      × GoesOn trap frame'
unfolding semihost_probe scv1_fault_c after_trap
probed (opened fd) s new h = (after_probe true, [], ground (arith, new), refl, refl, refl, tt)
probed refused s new h = (after_probe false, [], ground (arith, new), refl, refl, refl, tt)
probed (faults frame) s new (room, narrow) =
    let pc = (get_or frame frame_pc_index 0 + 2) % 2 ^ 32 in
    (
      after_probe false,
      splice frame_pc_index (pc ∷ []) frame,
      ground (arith, new),
      refl,
      refl,
      refl,
      get_or-splice_self frame_pc_index 0 0 (pc ∷ []) frame (omega arith) (omega (arith, room))
          ∙ omega (arith, narrow),
    )

-- The first probe leaves the core running, behind the trap, whatever the trap meets: a host that opens the file, one that
-- refuses, or none. It finds out whether a host answers; it is not made again; and from
-- then on every exception halts the core.
pub semihost_probe_lem :
    (trap : Trap) (s : Semihost)
    → s.probed ≡ false
    → IsTrap trap
    → (s' : Semihost) × (frame' : List ℕ) × (semihost_probe trap s ≡ resumed s' frame')
      × GoesOn trap frame'
      × (s'.available ≡ answers trap)
      × ((t : Trap) → semihost_probe t s' ≡ resumed s' [])
      × ((e : Exception) (frame : List ℕ) → Halts (handle_exception e s' frame))
unfolding semihost_probe
semihost_probe_lem trap s new h =
    let (s', frame', e, found, quiet, done, on) = probed trap s new h in
    (
      s',
      frame',
      e,
      on,
      found,
      λ t. ground (arith, done),
      λ x frame. handle_exception-Halts x s' frame quiet,
    )
