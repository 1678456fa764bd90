-- ===== src/Kernel/Loop.antt =====
-- card_loop.c: every command that the reader delivers gets one response.
use native_smart_card_os.Kernel.{
  LinkEvent, link_down, link_error, link_reset, pump, received, scos_apdu_cmd_max,
  scos_apdu_rsp_max, scos_card_loop, scos_reset,
}
use native_smart_card_os.Kernel.Answers.{scos_process_lem}
use native_smart_card_os.Machine.{Machine}
use native_smart_card_os.Store.Sizes.{SameSize}
use native_smart_card_os.Tree.Invariant.{IsTree}
use native_smart_card_os.Common.{
  All, Bool-cases, List, [], arith, if◌then◌else◌, inl, inr, length, length-replicate,
  length-splice, length-take, ltb, refl, some, splice, suc, take, true, ℕ, ◌%◌, ◌∷◌, ◌≡◌, ◌≤◌,
}

-- The kernel's buffers have their sizes, and the file tree is well formed.
pub record IsCard (m : Machine) : Type 0 where
  pub cmd_sized : length m.kernel.cmd ≡ scos_apdu_cmd_max
  pub rsp_sized : length m.kernel.rsp ≡ scos_apdu_rsp_max
  pub tree : IsTree m.store

-- A response has a status word, and fits the kernel's buffer.
abbrev pub IsSent : List ℕ → Type 0
IsSent bytes = (2 ≤ length bytes) × (length bytes ≤ scos_apdu_rsp_max)

-- The responses that the reader is owed: one for each command that fits the buffer, until the link goes down.
abbrev pub owed : List LinkEvent → ℕ
owed [] = 0
owed (link_down ∷ events) = 0
owed (received bytes ∷ events) =
    if ltb scos_apdu_cmd_max (length bytes) then owed events else suc (owed events)
owed (_ ∷ events) = owed events

pub pump_lem :
    (m : Machine) (bytes : List ℕ)
    → IsCard m
    → length bytes ≤ scos_apdu_cmd_max
    → (m' : Machine) × (r : List ℕ) × (pump m bytes ≡ some (m', r ∷ []))
      × IsSent r
      × IsCard m'
      × SameSize m.store m'.store
unfolding pump
pump_lem m bytes h small =
    let k = record (m.kernel) {
      cmd = splice 0 bytes m.kernel.cmd;
      cmd_len = length bytes % 65536;
      rsp_len = 0;
    } in
    let m0 = record m { kernel = k } in
    let (out, e, p) =
      scos_process_lem m0 (some k.cmd) k.cmd_len k.rsp (omega (arith, h.rsp_sized))
        (omega (arith, h.rsp_sized)) in
    let k' = record (out.machine.kernel) { rsp = out.rsp; rsp_len = out.rsp_len } in
    let m' = record (out.machine) { kernel = k' } in
    (
      m',
      take out.rsp_len out.rsp,
      ground (arith, e, p),
      (
        ground (arith, p, length-take out.rsp_len out.rsp),
        ground (arith, p, length-take out.rsp_len out.rsp),
      ),
      record {
        cmd_sized = ground (arith, p, h, length-splice 0 bytes m.kernel.cmd);
        rsp_sized = ground (arith, p, h);
        tree = p.same_tree h.tree;
      },
      p.same_chip,
    )

-- A command that does not fit is dropped.
pump_big :
    (m : Machine) (bytes : List ℕ)
    → ltb scos_apdu_cmd_max (length bytes) ≡ true
    → pump m bytes ≡ some (m, [])
unfolding pump
pump_big m bytes big = rw (big, pump) refl

pub reset-IsCard : (m : Machine) → IsCard m → IsCard (scos_reset m)
unfolding scos_reset
reset-IsCard m h = record {
  cmd_sized = ground (arith, h, length-replicate {A = ℕ} (length m.kernel.cmd) 0);
  rsp_sized = ground (arith, h, length-replicate {A = ℕ} (length m.kernel.rsp) 0);
  tree = h.tree;
}

-- What the pump reaches over a list of events: it ends, with as many responses as the reader is
-- owed, and with the card well formed.
abbrev pub Serves : List LinkEvent → Machine → Type 0
Serves events m =
    (m' : Machine) × (sent : List (List ℕ)) × (scos_card_loop events m ≡ some (m', sent))
    × (length sent ≡ owed events)
    × All IsSent sent
    × IsCard m'

-- One command that fits is answered before the rest is served.
serve_command :
    (bytes : List ℕ) (events : List LinkEvent) (m : Machine)
    → IsCard m
    → length bytes ≤ scos_apdu_cmd_max
    → ((m' : Machine) → IsCard m' → Serves events m')
    → Serves (received bytes ∷ events) m
unfolding scos_card_loop
serve_command bytes events m h small rest =
    let (m1, r, e, sent, card, size) = pump_lem m bytes h small in
    let (m2, all, f, enough, good, card2) = rest m1 card in
    (m2, r ∷ all, ground (arith, e, f), ground (arith, enough), (sent, good), card2)

-- From a well-formed card the APDU pump ends on every sequence of link events, whatever bytes the commands
-- hold. It sends exactly one response for each command of at most 261 bytes up to the point where
-- the link goes down, each of 2 to 258 bytes, and the card is well formed in the end.
pub scos_card_loop_lem : (events : List LinkEvent) (m : Machine) → IsCard m → Serves events m
unfolding scos_card_loop
scos_card_loop_lem [] m h = (m, [], refl, refl, tt, h)
scos_card_loop_lem (link_down ∷ events) m h = (m, [], refl, refl, tt, h)
scos_card_loop_lem (link_reset ∷ events) m h =
    scos_card_loop_lem events (scos_reset m) (reset-IsCard m h)
scos_card_loop_lem (link_error ∷ events) m h = scos_card_loop_lem events m h
scos_card_loop_lem (received bytes ∷ events) m h =
    elim (Bool-cases (ltb scos_apdu_cmd_max (length bytes))) [
      | inr small ↦
          serve_command bytes events m h (ground arith)
            (λ m' card. scos_card_loop_lem events m' card)
      | inl big ↦
          let (m', sent, e, enough, good, card) = scos_card_loop_lem events m h in
          (m', sent, ground (arith, e, pump_big m bytes big), ground (arith, enough), good, card)
    ]
