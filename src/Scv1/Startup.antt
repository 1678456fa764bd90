-- ===== src/Scv1/Startup.antt =====
-- startup.c, and the probe of semihost.c: what runs before `main`, and what a fault does. Memory is the list of
-- its words.
use native_smart_card_os.Common.{
  Bool, List, [], codes, drop, false, get_or, if◌then◌else◌, not, splice, suc, true, zero, ℕ, ◌%◌,
  ◌++◌, ◌+◌, ◌-◌, ◌^◌, ◌∷◌,
}

-- The addresses of scv1.ld, as positions of words: `_sdata`, `_edata`, `_sbss` and `_ebss`.
pub record Layout : Type 0 where
  pub sdata : ℕ
  pub edata : ℕ
  pub sbss : ℕ
  pub ebss : ℕ

-- The first loop of `scv1_reset_handler`, over the words that are left; `src` is what `_sidata` points at.
unfoldable pub copy_data : ℕ → List ℕ → ℕ → List ℕ → List ℕ
unfolding splice
copy_data zero src dst mem = mem
copy_data (suc n) src dst mem =
    copy_data n (drop 1 src) (dst + 1) (splice dst (get_or src 0 0 ∷ []) mem)

-- The second loop, over the words that are left.
unfoldable pub zero_bss : ℕ → ℕ → List ℕ → List ℕ
unfolding splice
zero_bss zero p mem = mem
zero_bss (suc n) p mem = zero_bss n (p + 1) (splice p (0 ∷ []) mem)

-- The memory in which `main` is called.
unfoldable pub scv1_reset_handler : Layout → List ℕ → List ℕ → List ℕ
unfolding copy_data zero_bss
scv1_reset_handler at sidata mem =
    zero_bss (at.ebss - at.sbss) at.sbss (copy_data (at.edata - at.sdata) sidata at.sdata mem)

-- The static variables of semihost.c.
pub record Semihost : Type 0 where
  pub available : Bool
  pub probed : Bool
  pub in_flight : Bool

-- The word of the stacked frame that holds the return address.
abbrev pub frame_pc_index : ℕ
frame_pc_index = 6

-- What a handler does: the core goes on with the frame, or it halts and has written a text.
pub data Handled : Type 0 where
  resumed : Semihost → List ℕ → Handled
  halted : Semihost → List ℕ → Handled

abbrev pub fault_text : List ℕ → List ℕ
fault_text name = 10 ∷ (codes "!! SCV1 FAULT: " ++ name ++ 10 ∷ [])

-- `scv1_fault_c`, the handler of HardFault and of DebugMonitor, and `semihost_probe_faulted`.
unfoldable pub scv1_fault_c : Semihost → List ℕ → Handled
unfolding splice
scv1_fault_c s frame =
    if s.in_flight
    then resumed (record s { in_flight = false; available = false })
        (splice frame_pc_index ((get_or frame frame_pc_index 0 + 2) % 2 ^ 32 ∷ []) frame)
    else halted s (fault_text (codes "HardFault"))

-- The other handlers.
pub data Exception : Type 0 where
  nmi hardfault memmanage busfault usagefault svcall debugmon pendsv systick : Exception

-- The vector table of `scv1_vectors`.
unfoldable pub handle_exception : Exception → Semihost → List ℕ → Handled
unfolding scv1_fault_c
handle_exception nmi s frame = halted s (fault_text (codes "NMI"))
handle_exception hardfault s frame = scv1_fault_c s frame
handle_exception memmanage s frame = halted s (fault_text (codes "MemManage"))
handle_exception busfault s frame = halted s (fault_text (codes "BusFault"))
handle_exception usagefault s frame = halted s (fault_text (codes "UsageFault"))
handle_exception debugmon s frame = scv1_fault_c s frame
handle_exception _ s frame = halted s (fault_text (codes "unexpected interrupt"))

-- What the trap of the probe meets: a host that opens the file, with a handle of 0 or above 0, a host that refuses,
-- or none, so that the trap is a fault with a frame.
pub data Trap : Type 0 where
  opened : ℕ → Trap
  refused : Trap
  faults : List ℕ → Trap

-- `semihost_probe` behind the trap, which found the flag set or cleared.
unfoldable pub after_trap : Semihost → Bool → Semihost
after_trap s answered =
    if not s.in_flight
    then record s { available = false }
    else record s { in_flight = false; available = answered }

-- `semihost_probe`. A handler that resumes comes back behind the trap.
unfoldable pub semihost_probe : Trap → Semihost → Handled
unfolding after_trap scv1_fault_c
semihost_probe trap s =
    let armed = record s { probed = true; in_flight = true; available = true } in
    let answer : Handled = elim trap [
      | opened fd ↦ resumed (after_trap armed true) []
      | refused ↦ resumed (after_trap armed false) []
      | faults frame ↦ elim (scv1_fault_c armed frame) [
        | resumed s' frame' ↦ resumed (after_trap s' false) frame'
        | halted s' text ↦ halted s' text
      ]
    ] in
    if s.probed then resumed s [] else answer
