-- ===== src/Connection/Slots.antt =====
-- The slots for messages: universal_send and the send part of krping_setup_wr of
-- `krpingTrimmed/krping.c`.
use comex.Base.{
  ℕ, zero, suc, ◌+◌, ◌-◌, ◌%◌, ◌<◌, ◌≤◌, ◌≡◌, Bool, true, ◌==◌, update, update_self, arith,
}
use comex.Base.Int.{ℤ, pos, ◌==ℤ◌}

-- VERB_SEND_SLOT
abbrev pub verb_send_slot : ℕ
verb_send_slot = 24

-- The slots whose sends ask for a completion, as krping_setup_wr marks them
pub is_signaled : (slot : ℕ) → Bool
is_signaled slot = slot % 4 == 0

-- The slot that is taken after `slot`
pub next_slot : (slot : ℕ) → ℕ
next_slot slot = (slot + 1) % verb_send_slot

-- A message: the immediate data, the bytes and how many
pub record Message {ℓ} (A : Type ℓ) : Type ℓ where
  pub imm : ℕ
  pub bytes : A
  pub size : ℕ

-- The part of a krping_cb that sending changes: vslotusing, and by slot the immediate data of sq_wr, the
-- bytes in send_buf and the length in send_sgl
pub record SendSlots {ℓ} (A : Type ℓ) : Type ℓ where
  pub vslotusing : ℕ
  pub slots : ℕ → Message A

-- What a call of universal_send does besides: the slot that it takes, what it posts from there, whether
-- the posting succeeds, and whether it waits for an acknowledgement
pub record Posting {ℓ} (A : Type ℓ) : Type ℓ where
  pub slot : ℕ
  pub message : Message A
  pub issued : Bool
  pub waits : Bool

module _ {ℓ} {A : Type ℓ} (post : Message A → ℤ) where
  -- universal_send, with ib_post_send as `post`. Its failure is only printed: the code waits all the
  -- same, and returns 0.
  pub universal_send : SendSlots A → Message A → Posting A × SendSlots A
  universal_send s m =
      let slot = s.vslotusing in
      let slots = update s.slots slot m in
      let sent : Posting A = record {
        slot = slot;
        message = slots slot;
        issued = post (slots slot) ==ℤ pos 0;
        waits = is_signaled slot;
      } in
      (sent, record { vslotusing = next_slot slot; slots = slots })

  -- The slots after the first `n` of the messages, and the send that follows them
  pub after_sends : SendSlots A → (ℕ → Message A) → (n : ℕ) → SendSlots A
  after_sends s messages zero = s
  after_sends s messages (suc n) = (universal_send (after_sends s messages n) (messages n)).1

  abbrev pub nth_send : SendSlots A → (ℕ → Message A) → (n : ℕ) → Posting A
  nth_send s messages n = (universal_send (after_sends s messages n) (messages n)).0

  after_sends_lem :
      (s : SendSlots A) (messages : ℕ → Message A) (n : ℕ)
      → s.vslotusing < 24
      → (after_sends s messages n).vslotusing ≡ (s.vslotusing + n) % 24
  unfolding after_sends universal_send next_slot
  after_sends_lem s messages zero h = omega arith
  after_sends_lem s messages (suc n) h = omega (arith, after_sends_lem s messages n h)

is_signaled_lem : (s : ℕ) → s % 4 ≡ 0 → is_signaled s ≡ true
unfolding is_signaled
is_signaled_lem s h = ground arith

-- Whether or not the postings succeed: of any four sends in a row one waits for an acknowledgement, a
-- slot is taken again only after 24 sends, and each send posts its own message.
pub universal_send-waits {ℓ} :
    {A : Type ℓ} (post : Message A → ℤ) (s : SendSlots A) (messages : ℕ → Message A)
    → s.vslotusing < verb_send_slot
    → ((n : ℕ) → (k : ℕ) × (k < 4) × ((nth_send post s messages (n + k)).waits ≡ true))
      × ((i j : ℕ)
          → i < j
          → (nth_send post s messages i).slot ≡ (nth_send post s messages j).slot
          → i + verb_send_slot ≤ j)
      × ((n : ℕ) → (nth_send post s messages n).message ≡ messages n)
unfolding universal_send
universal_send-waits post s messages h =
    let v : ℕ = s.vslotusing in
    let at : (n : ℕ) → (after_sends post s messages n).vslotusing ≡ (v + n) % 24 =
      λ n. after_sends_lem post s messages n h in
    (
      λ n.
          let k : ℕ = (4 - (v + n) % 4) % 4 in
          (k, omega arith, is_signaled_lem _ (omega (arith, at (n + k)))),
      λ i j l e. omega (arith, l, e, at i, at j),
      λ n. update_self _ (after_sends post s messages n).vslotusing (messages n),
    )
