-- ===== src/Cmd/Answers.antt =====
-- The command handlers: what they leave of the response and of the kernel.
use native_smart_card_os.Apdu.{ApduCommand}
use native_smart_card_os.Cmd.Binary.{answer_read, resolve_target, scos_cmd_read_binary}
use native_smart_card_os.Cmd.Select.{
  Target-cases, emit_fci, emit_template, finish_select, put_template, scos_cmd_select,
  select_target,
}
use native_smart_card_os.Fs.{FsResult-cases}
use native_smart_card_os.Machine.{Machine, with_sel}
use native_smart_card_os.Response.{ApduResponse, apdu_rsp_put, apdu_rsp_put_u8}
use native_smart_card_os.Response.Contents.{IsResponse, Keeps, apdu_rsp_put-Keeps}
use native_smart_card_os.Store.{Store}
use native_smart_card_os.Store.Sizes.{SameSize}
use native_smart_card_os.Sw.{sw_func_not_supported, sw_incorrect_p1p2, sw_ok}
use native_smart_card_os.Tree.{FsSelection, fs_build_fcp, fs_ef_read, fs_get, fs_selected_index}
use native_smart_card_os.Tree.Invariant.{IsTree}
use native_smart_card_os.Common.{
  List, Option, [], arith, bit_and, if◌then◌else◌, inl, inr, length, none, refl, some, ℕ, ◌%◌, ◌==◌,
  ◌∷◌, ◌≡◌, ◌≢◌,
}

-- After a handler the builder is well formed again, and the kernel's buffers and life cycle are as
-- before. A well-formed tree stays well formed, the regions of the chip keep their sizes, and a command that is not answered 9000 changes
-- nothing.
pub record IsAnswer (m : Machine) (rsp : ApduResponse) (out : ℕ × Machine × ApduResponse)
    : Type 0 where
  pub built : Keeps rsp out.2
  pub same_lifecycle : out.1.kernel.lifecycle ≡ m.kernel.lifecycle
  pub same_cmd : out.1.kernel.cmd ≡ m.kernel.cmd
  pub same_rsp : out.1.kernel.rsp ≡ m.kernel.rsp
  pub same_tree : IsTree m.store → IsTree out.1.store
  pub same_chip : SameSize m.store out.1.store
  pub atomic : out.0 ≢ sw_ok → IsTree m.store → out.1 ≡ m

-- The same where the fuel was enough.
abbrev pub Answered : Machine → ApduResponse → Option (ℕ × Machine × ApduResponse) → Type 0
Answered m rsp (some out) = IsAnswer m rsp out
Answered m rsp none = ⊥

-- A handler that leaves the machine alone.
IsAnswer-built :
    (m : Machine) (sw : ℕ) {rsp rsp' : ApduResponse} → Keeps rsp rsp' → IsAnswer m rsp (sw, m, rsp')
IsAnswer-built m sw k = record {
  built = k;
  same_lifecycle = refl;
  same_cmd = refl;
  same_rsp = refl;
  same_tree = λ h. h;
  same_chip = (refl, refl);
  atomic = λ ne tree. refl;
}

-- A handler that succeeds, and moves the selection alone.
IsAnswer-moved :
    (m : Machine) (sel : FsSelection) {rsp rsp' : ApduResponse}
    → Keeps rsp rsp'
    → IsAnswer m rsp (sw_ok, with_sel m sel, rsp')
IsAnswer-moved m sel k = record {
  built = k;
  same_lifecycle = refl;
  same_cmd = refl;
  same_rsp = refl;
  same_tree = λ h. h;
  same_chip = (refl, refl);
  atomic = λ ne. absurd (ne refl);
}

u8-Keeps : (rsp : ApduResponse) (b : ℕ) → IsResponse rsp → Keeps rsp (apdu_rsp_put_u8 rsp b).1
unfolding apdu_rsp_put_u8
u8-Keeps rsp b h = apdu_rsp_put-Keeps rsp (b ∷ []) 1 h (omega arith)

put_template-Keeps :
    (rsp : ApduResponse) (tag : ℕ) (body : List ℕ)
    → IsResponse rsp
    → Keeps rsp (put_template rsp tag body).1
unfolding put_template
put_template-Keeps rsp tag body h =
    let (h1, c1) = u8-Keeps rsp tag h in
    let r1 = (apdu_rsp_put_u8 rsp tag).1 in
    let (h2, c2) = u8-Keeps r1 (length body % 256) h1 in
    let r2 = (apdu_rsp_put_u8 r1 (length body % 256)).1 in
    let (h3, c3) = apdu_rsp_put-Keeps r2 body (length body) h2 (omega arith) in ground arith

emit_fci-Keeps :
    (s : Store) (c : ApduCommand) (rsp : ApduResponse) (index ret_opt : ℕ)
    → IsResponse rsp
    → Keeps rsp (emit_fci s c rsp index ret_opt).1
unfolding emit_fci emit_template
emit_fci-Keeps s c rsp index ret_opt h = elim (FsResult-cases (fs_get s index)) [
  | inr (e, r) ↦ ground (arith, r)
  | inl (d, r) ↦ ground (
    arith,
    r,
    put_template-Keeps rsp (if ret_opt == 0x04 then 0x62 else 0x6F) (fs_build_fcp d 32) h,
  )
]

-- A handler that answers with a status word alone.
pub IsAnswer-sw :
    (m : Machine) (sw : ℕ) {rsp : ApduResponse} → IsResponse rsp → IsAnswer m rsp (sw, m, rsp)
IsAnswer-sw m sw h = IsAnswer-built m sw (h, refl)

finish_select-IsAnswer :
    (c : ApduCommand) (m : Machine) (rsp : ApduResponse) (sel : FsSelection)
    → IsResponse rsp
    → IsAnswer m rsp (finish_select c m rsp sel)
unfolding finish_select
finish_select-IsAnswer c m rsp sel h =
    let k = emit_fci-Keeps m.store c rsp (fs_selected_index sel) (bit_and c.p2 0x0C) h in
    let (sw, rsp') = emit_fci m.store c rsp (fs_selected_index sel) (bit_and c.p2 0x0C) in
    ground (arith, IsAnswer-built m sw k, IsAnswer-moved m sel k)

-- SELECT answers within the buffer and writes nothing but the selection.
pub scos_cmd_select-IsAnswer :
    (c : ApduCommand) (m : Machine) (rsp : ApduResponse)
    → IsResponse rsp
    → IsAnswer m rsp (scos_cmd_select c m rsp)
unfolding scos_cmd_select
scos_cmd_select-IsAnswer c m rsp h = elim (Target-cases (select_target m.store m.kernel.sel c)) [
  | inl (sel, r) ↦ ground (
    arith,
    r,
    IsAnswer-sw m sw_incorrect_p1p2 h,
    IsAnswer-sw m sw_func_not_supported h,
    finish_select-IsAnswer c m rsp sel h,
  )
  | inr (sw, r) ↦ ground (
    arith,
    r,
    IsAnswer-sw m sw_incorrect_p1p2 h,
    IsAnswer-sw m sw_func_not_supported h,
    IsAnswer-sw m sw h,
  )
]

-- READ BINARY answers within the buffer and writes nothing.
pub scos_cmd_read_binary-IsAnswer :
    (c : ApduCommand) (m : Machine) (rsp : ApduResponse)
    → IsResponse rsp
    → IsAnswer m rsp (scos_cmd_read_binary c m rsp)
unfolding scos_cmd_read_binary answer_read
scos_cmd_read_binary-IsAnswer c m rsp h =
    let say : (w : ℕ) → IsAnswer m rsp (w, m, rsp) = λ w. IsAnswer-sw m w h in
    elim (Target-cases (resolve_target m.store m.kernel.sel c.p1 c.p2)) [
      | inr (sw, r) ↦ ground (arith, r, say)
      | inl ((index, offset), r) ↦ elim (FsResult-cases (fs_ef_read m.store index offset c.le)) [
        | inr (e, q) ↦ ground (arith, r, q, say)
        | inl (got, q) ↦
            let k = apdu_rsp_put-Keeps rsp got (length got) h (omega arith) in
            let put : (w : ℕ)
                → IsAnswer m rsp (w, m, (apdu_rsp_put rsp (some got) (length got)).1) =
              λ w. IsAnswer-built m w k in
            ground (arith, r, q, say, put)
      ]
    ]
