-- ===== src/Buddy/Bits.antt =====
-- The index arithmetic of COMEX_free_page: what `^ (1 << order)` and `& ~(1 << order)` do to an
-- aligned index, by a table of every index.
use comex.Base.{
  ℕ, zero, suc, ◌+◌, ◌-◌, ◌*◌, ◌/◌, ◌%◌, ◌^◌, ◌≤◌, ◌<◌, ◌≡◌, refl, ◌⊎◌, Bool, true, ◌&&◌, arith,
  ◌==◌, if◌then◌else◌, ==_iff, holds_below, holds_below_lem,
}
use comex.Buddy.{buddy_idx, combined_idx}

-- A statement about every order below that of the largest block, one by one.
by_order :
    (P : ℕ → Type 0)
    → P 0
    → P 1
    → P 2
    → P 3
    → P 4
    → P 5
    → P 6
    → P 7
    → P 8
    → P 9
    → (o : ℕ) → o < 10
    → P o
by_order P a b c d e f g h i j zero l = a
by_order P a b c d e f g h i j (suc zero) l = b
by_order P a b c d e f g h i j (suc (suc zero)) l = c
by_order P a b c d e f g h i j (suc (suc (suc zero))) l = d
by_order P a b c d e f g h i j (suc (suc (suc (suc zero)))) l = e
by_order P a b c d e f g h i j (suc (suc (suc (suc (suc zero))))) l = f
by_order P a b c d e f g h i j (suc (suc (suc (suc (suc (suc zero)))))) l = g
by_order P a b c d e f g h i j (suc (suc (suc (suc (suc (suc (suc zero))))))) l = h
by_order P a b c d e f g h i j (suc (suc (suc (suc (suc (suc (suc (suc zero)))))))) l = i
by_order P a b c d e f g h i j (suc (suc (suc (suc (suc (suc (suc (suc (suc zero))))))))) l = j
by_order P a b c d e f g h i j (suc (suc (suc (suc (suc (suc (suc (suc (suc (suc o)))))))))) l =
    absurd (omega arith)

-- Is the bit of this order set?
abbrev pub has_bit : ℕ → ℕ → Bool
has_bit x o = x / 2 ^ o % 2 == 1

xor_row : ℕ → ℕ → Bool
xor_row o x = buddy_idx x o == (if has_bit x o then x - 2 ^ o else x + 2 ^ o)

and_row : ℕ → ℕ → Bool
and_row o x = combined_idx x o == (if has_bit x o then x - 2 ^ o else x)

table : holds_below (λ o. holds_below (λ x. xor_row o x && and_row o x) 2048) 10 ≡ true
unfolding holds_below xor_row and_row
table = refl

rows : (o x : ℕ) → o < 10 → x < 2048 → (xor_row o x && and_row o x) ≡ true
rows o x ho hx = holds_below_lem _ 2048 (holds_below_lem _ 10 table o ho) x hx

abbrev flip : ℕ → ℕ → ℕ
flip x o = if has_bit x o then x - 2 ^ o else x + 2 ^ o

abbrev clear : ℕ → ℕ → ℕ
clear x o = if has_bit x o then x - 2 ^ o else x

buddy_idx-flip : (o x : ℕ) → o < 10 → x < 2048 → buddy_idx x o ≡ flip x o
unfolding xor_row
buddy_idx-flip o x ho hx = (==_iff (buddy_idx x o) (flip x o)).0 (ground (arith, rows o x ho hx))

combined_idx-clear : (o x : ℕ) → o < 10 → x < 2048 → combined_idx x o ≡ clear x o
unfolding and_row
combined_idx-clear o x ho hx =
    (==_iff (combined_idx x o) (clear x o)).0 (ground (arith, rows o x ho hx))

-- The block `p` of order `o` and its buddy are the halves of the block `whole`.
pub record Halves (p o buddy whole : ℕ) : Type 0 where
  pub aligned : whole % (2 * 2 ^ o) ≡ 0
  pub buddy_aligned : buddy % 2 ^ o ≡ 0
  pub halves : ((whole ≡ p) × (buddy ≡ p + 2 ^ o)) ⊎ ((whole ≡ buddy) × (p ≡ buddy + 2 ^ o))
  pub within : (total : ℕ) → total % 1024 ≡ 0 → p < total → whole + 2 * 2 ^ o ≤ total

abbrev Split : ℕ → Type 0
Split o =
    (p : ℕ)
    → p % 2 ^ o ≡ 0
    → Halves p o (p + flip (p % 2048) o - p % 2048) (p + clear (p % 2048) o - p % 2048)
      × ((p + clear (p % 2048) o - p % 2048) % 2048 ≡ clear (p % 2048) o)

Split-all : (o : ℕ) → o < 10 → Split o
Split-all =
    by_order Split (λ p h. ground arith) (λ p h. ground arith) (λ p h. ground arith)
      (λ p h. ground arith) (λ p h. ground arith) (λ p h. ground arith) (λ p h. ground arith)
      (λ p h. ground arith) (λ p h. ground arith) (λ p h. ground arith)

-- What COMEX_free_page computes from an aligned block: its buddy, and the block that both make up,
-- whose index within COMEX_MAX_ORDER bits is the next round's `page_idx`.
pub index-Halves :
    (o p x : ℕ)
    → x ≡ p % 2048
    → o < 10
    → p % 2 ^ o ≡ 0
    → Halves p o (p + buddy_idx x o - x) (p + combined_idx x o - x)
      × ((p + combined_idx x o - x) % 2048 ≡ combined_idx x o)
index-Halves o p x e ho h =
    rw
      (
        e,
        buddy_idx-flip o (p % 2048) ho (omega arith),
        combined_idx-clear o (p % 2048) ho (omega arith),
      )
      (Split-all o ho p h)
