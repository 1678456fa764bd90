-- ===== src/Vcard/Cycle.antt =====
-- simulator/virtual_card.c and simulator/main.c: the card over its sessions, from one power-up to the
-- next.
use mathlib.Core.Path.{subst}
use native_smart_card_os.Kernel.{scos_apdu_cmd_max, scos_apdu_rsp_max}
use native_smart_card_os.Kernel.Loop.{IsCard}
use native_smart_card_os.Kernel.Start.{ComesUp, scos_init-IsCard}
use native_smart_card_os.Link.Returns.{simulator-returns}
use native_smart_card_os.Link.Session.{run_card_loop-Ends, simulator_link}
use native_smart_card_os.Machine.{Machine}
use native_smart_card_os.Store.{Store}
use native_smart_card_os.Store.Sizes.{SameSize}
use native_smart_card_os.Tree.Invariant.{IsTree}
use native_smart_card_os.Tree.Start.{IsChip}
use native_smart_card_os.Vcard.Power.{
  Host, Vcard, VcardConfig, region_load, region_power_on, region_store, vcard_configure,
  vcard_power_off, vcard_power_on,
}
use native_smart_card_os.Vcard.Program.{
  Exit, after_init, powered_machine, run_card, serve_reader, shut_down_with,
}
use native_smart_card_os.Common.{
  Bool-cases, List, Option, Option-cases, append-nil, arith, false, inl, inr, length, length-append,
  length-replicate, length-take, none, refl, replicate, some, sym, take, take-all, true, ℕ, ◌+◌,
  ◌-◌, ◌∙◌, ◌≡◌, ◌⊎◌,
}

pub length-region_power_on :
    (dir image : Option (List ℕ)) (size : ℕ) → length (region_power_on dir image size) ≡ size
unfolding region_power_on region_load
length-region_power_on none image size = length-replicate size 0xFF
length-region_power_on (some d) none size = length-replicate size 0xFF
length-region_power_on (some d) (some image) size = omega (
  arith,
  length-append (take size image) (replicate (size - length (take size image)) 0xFF),
  length-take size image,
  length-replicate {A = ℕ} (size - length (take size image)) 0xFF,
)

-- An image of the region's size is loaded as it is.
region_power_on-full :
    (d bytes : List ℕ) (size : ℕ)
    → length bytes ≡ size
    → region_power_on (some d) (some bytes) size ≡ bytes
unfolding region_power_on region_load
region_power_on-full d bytes size h =
    let whole : take size bytes ≡ bytes = take-all size bytes (omega (arith, h)) in
    let filled : size - length (take size bytes) ≡ 0 = omega (arith, h, length-take size bytes) in
    rw (filled, whole) (append-nil bytes)

-- What the chip holds survives a power cycle if there is a state directory that can be written: the chip
-- that comes up has the regions of the chip that was powered down, whatever the files held before.
vcard_power_on-vcard_power_off :
    (c : VcardConfig) (dir : List ℕ) (host : Host) (v : Vcard)
    → c.state_dir ≡ some dir
    → host.writable ≡ true
    → v.nvm.powered ≡ true
    → length v.nvm.eeprom_bytes ≡ c.eeprom_size
    → length v.nvm.flash_bytes ≡ c.flash_size
    → (vcard_power_on c (vcard_power_off c host v).0).nvm ≡ v.nvm
unfolding vcard_power_on vcard_power_off region_store
vcard_power_on-vcard_power_off c dir host v kept writable on eeprom_full flash_full = ground (
  arith,
  kept,
  writable,
  on,
  region_power_on-full dir v.nvm.eeprom_bytes c.eeprom_size eeprom_full,
  region_power_on-full dir v.nvm.flash_bytes c.flash_size flash_full,
)

-- A host from which a card comes up.
abbrev pub IsHost : VcardConfig → Host → Type 0
IsHost c host = IsChip (vcard_power_on c host).nvm

-- Without files that are written the chip comes up as it did before.
not_stored :
    (c : VcardConfig) (host : Host) (v : Vcard)
    → (c.state_dir ≡ none) ⊎ (host.writable ≡ false)
    → (vcard_power_on c (vcard_power_off c host v).0).nvm ≡ (vcard_power_on c host).nvm
unfolding vcard_power_on vcard_power_off region_power_on region_store
not_stored c host v (inl volatile) = ground (arith, volatile)
not_stored c host v (inr readonly) = elim (Option-cases c.state_dir) [
  | inl volatile ↦ ground (arith, volatile)
  | inr (dir, kept) ↦ ground (arith, kept, readonly)
]

power_on_sizes :
    (c : VcardConfig) (host : Host)
    → (length (vcard_power_on c host).nvm.eeprom_bytes ≡ c.eeprom_size)
      × (length (vcard_power_on c host).nvm.flash_bytes ≡ c.flash_size)
unfolding vcard_power_on
power_on_sizes c host = (
  length-region_power_on c.state_dir host.eeprom_image c.eeprom_size,
  length-region_power_on c.state_dir host.flash_image c.flash_size,
)

-- A power-down leaves such a host.
power_off-IsHost :
    (c : VcardConfig) (host : Host) (v : Vcard) (s : Store)
    → IsHost c host
    → IsTree s
    → SameSize (powered_machine (vcard_power_on c host)).store s
    → IsHost c (vcard_power_off c host (record v { nvm = s.nvm })).0
power_off-IsHost c host v s chip tree size =
    let off = record v { nvm = s.nvm } in
    let full = power_on_sizes c host in
    let unchanged : (c.state_dir ≡ none) ⊎ (host.writable ≡ false)
        → IsHost c (vcard_power_off c host off).0 =
      λ same. subst IsChip (sym (not_stored c host off same)) chip in
    elim (Option-cases c.state_dir) [
      | inl volatile ↦ unchanged (inl volatile)
      | inr (dir, kept) ↦ elim (Bool-cases host.writable) [
        | inr readonly ↦ unchanged (inr readonly)
        | inl writable ↦ inl (
          s,
          tree,
          sym (
              vcard_power_on-vcard_power_off c dir host off kept writable
                tree.stored.wellformed.is_powered (size.0 ∙ full.0) (size.1 ∙ full.1)),
        )
      ]
    ]

-- On such a host the card comes up.
pub power_on-ComesUp :
    (c : VcardConfig) (host : Host)
    → IsHost c host
    → ComesUp (powered_machine (vcard_power_on c host))
power_on-ComesUp c host chip =
    scos_init-IsCard (powered_machine (vcard_power_on c host))
      (length-replicate {A = ℕ} scos_apdu_cmd_max 0, length-replicate {A = ℕ} scos_apdu_rsp_max 0)
      chip

-- What a session leaves: it ends with exit code 0, and the card comes up again.
abbrev pub Session : VcardConfig → Option Exit → Type 0
Session c o = (x : Exit) × (o ≡ some x) × (x.code ≡ 0) × IsHost c x.host

serve_reader-Session :
    (c : VcardConfig) (host : Host) (m : Machine) (input : List ℕ)
    → IsHost c host
    → IsCard m
    → SameSize (powered_machine (vcard_power_on c host)).store m.store
    → Session c (serve_reader c host (vcard_power_on c host) m input)
unfolding serve_reader shut_down_with
serve_reader-Session c host m input chip card size =
    let v = vcard_power_on c host in
    let (r, e, good, more, over) =
      run_card_loop-Ends simulator_link (length input + 1) m input (omega arith) card in
    let (r', e', done) = simulator-returns (length input + 1) m input (omega arith) card in
    (
      shut_down_with 0 c host v r.machine r.output,
      ground (arith, e, e', done),
      refl,
      power_off-IsHost c host v r.machine.store chip good.tree (more.0 ∙ size.0, more.1 ∙ size.1),
    )

pub run_card-Session :
    (given : VcardConfig) (host : Host) (input : List ℕ)
    → IsHost (vcard_configure (some given)) host
    → Session (vcard_configure (some given)) (run_card given host input)
unfolding run_card after_init
run_card-Session given host input chip =
    let c = vcard_configure (some given) in
    let v = vcard_power_on c host in
    let (m, e, up, card, size) = power_on-ComesUp c host chip in
    let (x, f, zero_code, again) = serve_reader-Session c host m input chip card size in
    (x, ground (arith, e, f), zero_code, again)
