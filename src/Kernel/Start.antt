-- ===== src/Kernel/Start.antt =====
-- kernel.c: the card comes up.
use native_smart_card_os.Kernel.{
  cleared_kernel, scos_apdu_cmd_max, scos_apdu_rsp_max, scos_init, scos_ok,
}
use native_smart_card_os.Kernel.Loop.{IsCard}
use native_smart_card_os.Machine.{Machine, ScosKernel, operational}
use native_smart_card_os.Store.Sizes.{SameSize}
use native_smart_card_os.Tree.{fs_selection_reset}
use native_smart_card_os.Tree.Sizes.{fs_init-SameSize}
use native_smart_card_os.Tree.Start.{IsChip, fs_init-IsChip}
use native_smart_card_os.Common.{arith, length, length-replicate, refl, ℕ, ◌∙◌, ◌≡◌}

-- The buffers of the kernel have their sizes.
abbrev pub IsSized : ScosKernel → Type 0
IsSized k = (length k.cmd ≡ scos_apdu_cmd_max) × (length k.rsp ≡ scos_apdu_rsp_max)

-- From a machine with RAM as C starts, or after a power cycle: `scos_init` reports no error, and the card is operational and well
-- formed on a chip of the same size.
abbrev pub ComesUp : Machine → Type 0
ComesUp m =
    (m' : Machine) × (scos_init m ≡ (scos_ok, m'))
    × (m'.kernel.lifecycle ≡ operational)
    × IsCard m'
    × SameSize m.store m'.store

-- On every chip that holds a file tree, or that is powered, large enough and without
-- the magic number "SCOS" at the superblock, `scos_init` succeeds
-- whatever RAM holds: the card is operational and well formed, and the
-- regions of the chip keep their sizes.
pub scos_init-IsCard : (m : Machine) → IsSized m.kernel → IsChip m.store.nvm → ComesUp m
unfolding scos_init
scos_init-IsCard m sized chip =
    let (s', e, tree) = fs_init-IsChip m.store chip in
    let k = record (cleared_kernel m.kernel) {
      sel = fs_selection_reset;
      lifecycle = operational;
    } in
    (
      record { kernel = k; store = s' },
      ground (arith, e),
      refl,
      record {
        cmd_sized = length-replicate {A = ℕ} (length m.kernel.cmd) 0 ∙ sized.0;
        rsp_sized = length-replicate {A = ℕ} (length m.kernel.rsp) 0 ∙ sized.1;
        tree = tree;
      },
      ground (arith, e, fs_init-SameSize m.store),
    )
