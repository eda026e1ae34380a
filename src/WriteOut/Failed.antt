-- ===== src/WriteOut/Failed.antt =====
-- What a reader sees after COMEX_flush_buff has not been able to send.
use comex.Base.{ℕ, ◌+◌, ◌≤◌, ◌<◌, ◌≡◌, sym, ap, ◌∙◌, inl, inr, ◌&&◌, Bool-cases, ltb, leb, arith}
use comex.WriteOut.{Ring, Verbs, flush_buff}
use comex.WriteOut.Flush.{
  IsOrdered, Refused, Sending, nothing, sending, refused, IsRefused, flush_buff-Flushed,
}
use comex.WriteOut.View.{Waits, IsUnique, view, view-Waits, view-held}

module _ {ℓ κ} {A : Type ℓ} {M : Type κ} (verbs : Verbs A M) (total_write_out : ℕ) (m : M)
    (r : Ring A) where
  open verbs use {at}

  -- The page of the slot at head waits in no slot after a run has been refused.
  Refused-not_Waits :
      (count : ℕ) (out : M × Ring A) (p : ℕ)
      → 1 ≤ count
      → IsUnique total_write_out r
      → Waits r r.head p
      → Refused verbs total_write_out m r count out
      → (j : ℕ) → j < total_write_out
      → ¬ Waits out.1 j p
  Refused-not_Waits count out p one u w f j h v =
      elim (Bool-cases (leb r.head j && ltb j (r.head + count))) [
        | inl t ↦
            let sent = ap (λ d. d.status) (f.marked j (ground arith) (ground arith)) in
            ground (arith, sym sent ∙ v.status)
        | inr n ↦
            let e = f.kept j n in
            let waited : Waits r j p = record {
              status = ap (λ d. d.status) (sym e) ∙ v.status;
              page = ap (λ d. d.page_no) (sym e) ∙ v.page;
            } in
            let same = u j r.head p h (omega (arith, f.within, one)) waited w in
            ground (arith, n, same, one)
      ]

  -- If head is within the array, each page waits in one slot at most, neighbours for pages that pass
  -- the test of the loop are for pages of one 1024-page group, and do_write does not return 0 for a run
  -- that starts at head, then COMEX_flush_buff loses the page that waits at head: a reader gets the
  -- slot's contents before, and afterwards what the other node has held all along.
  pub flush_buff-loses :
      (p : ℕ)
      → r.head < total_write_out
      → IsUnique total_write_out r
      → IsOrdered verbs total_write_out m r
      → IsRefused verbs total_write_out m r
      → Waits r r.head p
      → (view verbs total_write_out (m, r) p ≡ r.contents r.head)
        × (view verbs total_write_out (flush_buff verbs total_write_out m r) p ≡ at m p)
  flush_buff-loses p h u ord fails w = (
    view-Waits verbs total_write_out m r r.head p u h w,
    by-cases _ (flush_buff-Flushed verbs total_write_out m r h ord),
  )
    where
      by-cases :
          (out : M × Ring A)
          → Sending verbs total_write_out m r out
          → view verbs total_write_out out p ≡ at m p
      by-cases out (nothing n f) = absurd (n w.status)
      by-cases out (sending count one t f) = absurd (ground (arith, t, fails count))
      by-cases out (refused count one n f) =
          view-held verbs total_write_out out.0 out.1 p (Refused-not_Waits count out p one u w f)
          ∙ ap (λ x. at x p) f.unsent
