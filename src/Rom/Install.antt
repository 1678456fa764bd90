-- ===== src/Rom/Install.antt =====
-- boot_main.c: a host that brings an image into the slot and starts it.
use native_smart_card_os.Boot.{
  BootCtx, boot_block_size, boot_handle, boot_slot_check, slot_active, refused,
}
use native_smart_card_os.Boot.Download.{
  activate_command, erase_command, load_command, load_step, loading, restart_command,
  verify_command,
}
use native_smart_card_os.Boot.Handover.{restart_step}
use native_smart_card_os.Kernel.{received}
use native_smart_card_os.Rom.Loop.{
  Core, Loader, after_reply, act_on, boot_status_rsp_len, in_loader, in_os, loader_round,
  slot_flush,
}
use native_smart_card_os.Sw.{sw_ok}
use native_smart_card_os.Common.{
  ==→eq, All, Bool, Bool-cases, ap, ◌∙◌, List, [], append-nil, append_assoc, arith, drop, inl, inr,
  length, length-append, length-drop, length-take, ltb, ltb→lt, ltb_false→le, refl, suc, take, true,
  zero, ℕ, ◌*◌, ◌++◌, ◌+◌, ◌-◌, ◌<◌, ◌==◌, ◌∷◌, ◌≡◌, ◌≤◌, ◌⊎◌, if◌then◌else◌,
}

-- The core after commands of the host, which ends with the loader.
abbrev pub feed : Bool → Core → List (List ℕ) → Core
feed strap core [] = core
feed strap (in_loader l) (cmd ∷ more) = feed strap (loader_round l (received cmd) strap) more
feed strap core (cmd ∷ more) = core

-- The blocks of an image from the `i`-th on, and what follows them; `fuel` is enough if it is the
-- length of what is left.
abbrev pub load_commands : ℕ → ℕ → List ℕ → List (List ℕ) → List (List ℕ)
load_commands zero i image more = more
load_commands (suc fuel) i image more =
    let rest = load_commands fuel (i + 1) (drop boot_block_size image) more in
    if length image == 0 then more else load_command i (take boot_block_size image) ∷ rest

-- The session of the host.
abbrev pub install_session : List ℕ → List (List ℕ)
install_session image =
    erase_command
    ∷ load_commands (length image) 0 image
        (verify_command image ∷ activate_command ∷ restart_command ∷ [])

-- A command that is answered 9000 keeps the loader running.
round_ok :
    (l : Loader) (cmd : List ℕ) (strap : Bool) (c : BootCtx)
    → boot_handle l.ctx cmd boot_status_rsp_len ≡ refused sw_ok c
    → loader_round l (received cmd) strap ≡ in_loader (record l { ctx = c; dirty = true })
unfolding loader_round after_reply act_on
round_ok l cmd strap c e = rw e refl

pub feed_ok :
    (l : Loader) (cmd : List ℕ) (strap : Bool) (c : BootCtx) (more : List (List ℕ))
    → boot_handle l.ctx cmd boot_status_rsp_len ≡ refused sw_ok c
    → feed strap (in_loader l) (cmd ∷ more)
      ≡ feed strap (in_loader (record l { ctx = c; dirty = true })) more
feed_ok l cmd strap c more e = ap (λ core. feed strap core more) (round_ok l cmd strap c e)

-- The loader in the course of the download.
abbrev pub downloading : Loader → List ℕ → ℕ → Loader
downloading l p m = record l { ctx = loading l.ctx p m; dirty = true }

abbrev pub AllBytes : List ℕ → Type 0
AllBytes xs = All (λ b. b < 256) xs

AllBytes-take : (n : ℕ) (xs : List ℕ) → AllBytes xs → AllBytes (take n xs)
AllBytes-take zero xs h = tt
AllBytes-take (suc n) [] h = tt
AllBytes-take (suc n) (x ∷ xs) (h, hs) = (h, AllBytes-take n xs hs)

AllBytes-drop : (n : ℕ) (xs : List ℕ) → AllBytes xs → AllBytes (drop n xs)
AllBytes-drop zero xs h = h
AllBytes-drop (suc n) [] h = tt
AllBytes-drop (suc n) (x ∷ xs) (h, hs) = AllBytes-drop n xs hs

take-append-drop : (n : ℕ) (xs : List ℕ) → take n xs ++ drop n xs ≡ xs
take-append-drop zero xs = refl
take-append-drop (suc n) [] = refl
take-append-drop (suc n) (x ∷ xs) = ap (λ t. x ∷ t) (take-append-drop n xs)

nothing_left :
    (l : Loader) (p image : List ℕ) (m : ℕ)
    → length image ≡ 0
    → downloading l p m ≡ downloading l (p ++ image) (m - length image)
nothing_left l p [] m e = let same : m - 0 ≡ m = omega arith in rw (append-nil p, same) refl
nothing_left l p (x ∷ image) m e = absurd (omega (arith, e))

-- The next block starts on its boundary, if there is one.
next_block :
    (i : ℕ) (p image : List ℕ)
    → i * boot_block_size ≡ length p
    → ((i + 1) * boot_block_size ≡ length (p ++ take boot_block_size image))
      ⊎ (length (drop boot_block_size image) ≡ 0)
next_block i p image here =
    let size = length-take boot_block_size image in
    let left = length-drop boot_block_size image in
    let all = length-append p (take boot_block_size image) in
    elim (Bool-cases (ltb (length image) boot_block_size)) [
      | inl short ↦
          let fewer = ltb→lt (length image) boot_block_size short in
          inr (omega (arith, left, fewer))
      | inr long ↦
          let many = ltb_false→le (length image) boot_block_size long in
          inl (omega (arith, size, all, many, here))
    ]

same_place :
    (l : Loader) (strap : Bool) (more : List (List ℕ)) {p q : List ℕ} {m n : ℕ}
    → p ≡ q
    → m ≡ n
    → feed strap (in_loader (downloading l p m)) more
      ≡ feed strap (in_loader (downloading l q n)) more
same_place l strap more e f = rw (e, f) refl

-- The blocks of an image, loaded behind what is there.
pub load_all :
    (fuel i : ℕ) (l : Loader) (strap : Bool) (p image : List ℕ) (m : ℕ) (more : List (List ℕ))
    → length image ≤ fuel
    → (i * boot_block_size ≡ length p) ⊎ (length image ≡ 0)
    → AllBytes image
    → length image ≤ m
    → feed strap (in_loader (downloading l p m)) (load_commands fuel i image more)
      ≡ feed strap (in_loader (downloading l (p ++ image) (m - length image))) more
load_all zero i l strap p image m more enough at bytes room =
    ap (λ k. feed strap (in_loader k) more) (nothing_left l p image m (omega (arith, enough)))
load_all (suc fuel) i l strap p image m more enough at bytes room =
    let block : List ℕ = take boot_block_size image in
    let rest : List ℕ = drop boot_block_size image in
    let size = length-take boot_block_size image in
    let left = length-drop boot_block_size image in
    let joined : (p ++ block) ++ rest ≡ p ++ image =
      append_assoc p block rest ∙ ap (λ t. p ++ t) (take-append-drop boot_block_size image) in
    let space : m - length block - length rest ≡ m - length image = omega (arith, size, left) in
    elim (Bool-cases (length image == 0)) [
      | inl none_left ↦ rw none_left (
          ap (λ k. feed strap (in_loader k) more)
            (nothing_left l p image m (==→eq (length image) 0 none_left)))
      | inr some_left ↦
          let nonempty : 0 < length image = ground (arith, some_left) in
          let here : i * boot_block_size ≡ length p = omega (arith, at, nonempty) in
          let step =
            load_step l.ctx p block i m here (AllBytes-take boot_block_size image bytes)
              (omega (arith, size, nonempty)) (omega (arith, size)) (omega (arith, size, room)) in
          let next =
            load_all fuel (i + 1) l strap (p ++ block) rest (m - length block) more
              (omega (arith, left, enough)) (next_block i p image here)
              (AllBytes-drop boot_block_size image bytes) (omega (arith, size, left, room)) in
          rw some_left (
            feed_ok (downloading l p m) (load_command i block) strap
              (loading l.ctx (p ++ block) (m - length block)) (load_commands fuel (i + 1) rest more)
              step
            ∙ next
            ∙ same_place l strap more joined space)
    ]

-- RESTART of an active slot.
pub restart_round :
    (l : Loader) (strap : Bool)
    → (boot_slot_check l.ctx.oshdr l.ctx.osflash).0 ≡ slot_active
    → feed strap (in_loader l) (restart_command ∷ [])
      ≡ in_os (slot_flush (record l { dirty = true }))
unfolding loader_round after_reply act_on
restart_round l strap active = rw (restart_step l.ctx active) refl
