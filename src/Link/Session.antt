-- ===== src/Link/Session.antt =====
-- src/kernel/card_loop.c over a link: the reader's text in, the card's text out.
use mathlib.Core.Option
use native_smart_card_os.Kernel.{
  LinkEvent, link_down, link_error, link_reset, pump, received, scos_apdu_cmd_max, scos_reset,
}
use native_smart_card_os.Kernel.Loop.{IsCard, pump_lem, reset-IsCard}
use native_smart_card_os.Link.{Delivery}
use native_smart_card_os.Link.Bounds.{Fits}
use native_smart_card_os.Link.Delivered.{
  IfDelivered, hal_card_receive-Delivers, uart_card_receive-IfDelivered,
}
use native_smart_card_os.Link.Simulator.{hal_card_receive, hal_card_send}
use native_smart_card_os.Link.Uart.{uart_card_receive, uart_card_send}
use native_smart_card_os.Machine.{Machine}
use native_smart_card_os.Store.Sizes.{SameSize}
use native_smart_card_os.Common.{
  Bool, Bool-cases, List, Option, [], arith, false, inl, inr, length, none, refl, some, suc, true,
  zero, ℕ, ◌++◌, ◌<◌, ◌∙◌, ◌∷◌, ◌≡◌, ◌⊎◌,
}

-- The link to the reader: `hal_card_receive` with the kernel's command buffer, `hal_card_send`, and
-- what the kernel relies on. `none`: the call still waits for the reader.
pub record CardLink : Type 0 where
  pub receive : List ℕ → Option Delivery
  pub send : List ℕ → List ℕ
  pub delivers : (input : List ℕ) → IfDelivered scos_apdu_cmd_max input (receive input)

-- Where `scos_card_loop` is when the text is used up: the machine, what the card printed, and whether the
-- function returned. If it did not, its last call of `hal_card_receive` waits for the reader, and
-- what that call printed is left out.
pub record Run : Type 0 where
  pub machine : Machine
  pub output : List ℕ
  pub returned : Bool

abbrev pub after_output : List ℕ → Run → Run
after_output text r = record r { output = text ++ r.output }

-- The two links.
abbrev pub simulator_link : CardLink
simulator_link = record {
  receive = hal_card_receive scos_apdu_cmd_max;
  send = hal_card_send;
  delivers = λ input.
      let (d, e, good) = hal_card_receive-Delivers scos_apdu_cmd_max input (omega arith) in
      rw e good;
}

abbrev pub uart_link : List ℕ → CardLink
uart_link atr = record {
  receive = uart_card_receive atr scos_apdu_cmd_max;
  send = uart_card_send;
  delivers = λ input. uart_card_receive-IfDelivered atr scos_apdu_cmd_max input (omega arith);
}

abbrev pub is_down : LinkEvent → Bool
is_down link_down = true
is_down _ = false

-- What the body of `scos_card_loop` does with an event, the link's end apart: the machine, and the
-- responses that are sent.
unfoldable pub card_turn : Machine → LinkEvent → Option (Machine × List (List ℕ))
card_turn m link_down = some (m, [])
card_turn m link_reset = some (scos_reset m, [])
card_turn m link_error = some (m, [])
card_turn m (received bytes) = pump m bytes

module _ (link : CardLink) where
  unfoldable pub send_all : List (List ℕ) → List ℕ
  send_all [] = []
  send_all (rsp ∷ more) = link.send rsp ++ send_all more

  -- `scos_card_loop` on fuel, a turn for each call of `hal_card_receive`. It returns when the link goes down, and
  -- stays in a call that waits.
  unfoldable pub run_card_loop : ℕ → Machine → List ℕ → Option Run
  unfolding send_all card_turn
  run_card_loop zero m input = none
  run_card_loop (suc fuel) m input = elim (link.receive input) [
    | none ↦ some (record { machine = m; output = []; returned = false })
    | some d ↦ elim (is_down d.event) [
      | true ↦ some (record { machine = m; output = d.printed; returned = true })
      | false ↦ elim (card_turn m d.event) [
        | none ↦ none
        | some (m', sent) ↦
            Option.map (after_output (d.printed ++ send_all sent)) (run_card_loop fuel m' d.rest)
      ]
    ]
  ]

-- An event that fits leaves a well-formed card.
pub card_turn_lem :
    (m : Machine) (event : LinkEvent)
    → IsCard m
    → Fits scos_apdu_cmd_max event
    → (m' : Machine) × (sent : List (List ℕ)) × (card_turn m event ≡ some (m', sent))
      × IsCard m'
      × SameSize m.store m'.store
unfolding card_turn scos_reset
card_turn_lem m link_down h small = (m, [], refl, h, (refl, refl))
card_turn_lem m link_reset h small = (scos_reset m, [], refl, reset-IsCard m h, (refl, refl))
card_turn_lem m link_error h small = (m, [], refl, h, (refl, refl))
card_turn_lem m (received bytes) h small =
    let (m', r, e, sent, card, size) = pump_lem m bytes h small in (m', r ∷ [], e, card, size)

module _ (link : CardLink) where
  -- The loop has returned, or it waits for the reader; the card is well formed and its regions are as large as
  -- before.
  abbrev pub Ends : Machine → Option Run → Type 0
  Ends m o =
      (r : Run) × (o ≡ some r)
      × IsCard r.machine
      × SameSize m.store r.machine.store
      × ((r.returned ≡ true)
          ⊎ (r.returned ≡ false) × ((rest : List ℕ) × (link.receive rest ≡ none)))

  -- One call of the link, by what it hands up.
  serve :
      (fuel : ℕ) (m : Machine) (input : List ℕ) (o : Option Delivery)
      → link.receive input ≡ o
      → IfDelivered scos_apdu_cmd_max input o
      → IsCard m
      → ((n : Machine) (rest : List ℕ)
          → length rest < length input
          → IsCard n
          → Ends n (run_card_loop link fuel n rest))
      → Ends m (run_card_loop link (suc fuel) m input)
  unfolding run_card_loop
  serve fuel m input none e h card next = (
    record { machine = m; output = []; returned = false },
    ground (arith, e),
    card,
    (refl, refl),
    inr (refl, (input, e)),
  )
  serve fuel m input (some d) e (inl down, small) card next = (
    record { machine = m; output = d.printed; returned = true },
    ground (arith, e, down),
    card,
    (refl, refl),
    inl refl,
  )
  serve fuel m input (some d) e (inr less, small) card next =
      let (n, sent, turn, good, size) = card_turn_lem m d.event card small in
      let (r, f, end, more, over) = next n d.rest less good in
      elim (Bool-cases (is_down d.event)) [
        | inl down ↦ (
          record { machine = m; output = d.printed; returned = true },
          ground (arith, e, down),
          card,
          (refl, refl),
          inl refl,
        )
        | inr up ↦ (
          after_output (d.printed ++ send_all link sent) r,
          ground (arith, e, up, turn, f),
          end,
          (more.0 ∙ size.0, more.1 ∙ size.1),
          over,
        )
      ]

  -- Over any link that keeps its contract, a well-formed card serves every text that the reader sends: with
  -- more fuel than the text has characters the loop either returns or stays in a call of the link
  -- that waits for the reader, and leaves a well-formed card on a chip of the same size.
  pub run_card_loop-Ends :
      (fuel : ℕ) (m : Machine) (input : List ℕ)
      → length input < fuel
      → IsCard m
      → Ends m (run_card_loop link fuel m input)
  run_card_loop-Ends zero m input small card = absurd (omega (arith, small))
  run_card_loop-Ends (suc fuel) m input small card =
      serve fuel m input (link.receive input) refl (link.delivers input) card
        (λ n rest less good. run_card_loop-Ends fuel n rest (omega (arith, less, small)) good)
