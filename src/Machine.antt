-- ===== src/Machine.antt =====
-- include/os/kernel.h: the kernel's state, beside the state of the file system that fs_store.c keeps.
use native_smart_card_os.Apdu.{ApduCommand}
use native_smart_card_os.Response.{ApduResponse}
use native_smart_card_os.Store.{Store}
use native_smart_card_os.Tree.{FsSelection}
use native_smart_card_os.Common.{Bool, List, [], false, get_or, none, some, true, ℕ, ◌*◌, ◌+◌}

pub data ScosLifecycle : Type 0 where
  no_power initialising operational fs_error terminated : ScosLifecycle

-- `scos_kernel`, with its two buffers.
pub record ScosKernel : Type 0 where
  pub lifecycle : ScosLifecycle
  pub reset_count : ℕ
  pub sel : FsSelection
  pub cmd : List ℕ
  pub cmd_len : ℕ
  pub rsp : List ℕ
  pub rsp_len : ℕ

pub record Machine : Type 0 where
  pub kernel : ScosKernel
  pub store : Store

-- `scos_cmd_handler`: the status word, and the state and the response after the command.
abbrev pub Handler : Type 0
Handler = ApduCommand → Machine → ApduResponse → ℕ × Machine × ApduResponse

abbrev pub with_sel : Machine → FsSelection → Machine
with_sel m sel = record m { kernel = record (m.kernel) { sel = sel } }

abbrev pub with_store : Machine → Store → Machine
with_store m s = record m { store = s }

-- The bytes of the command's data field; none where it is NULL.
abbrev pub payload_of : ApduCommand → List ℕ
payload_of c = elim c.payload [ none ↦ [] | some bytes ↦ bytes ]

abbrev pub has_payload : ApduCommand → Bool
has_payload c = elim c.payload [ none ↦ false | some _ ↦ true ]

-- A file identifier in the first two bytes of the data field.
abbrev pub payload_fid : ApduCommand → ℕ
payload_fid c = get_or (payload_of c) 0 0 * 256 + get_or (payload_of c) 1 0
