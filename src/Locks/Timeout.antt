-- ===== src/Locks/Timeout.antt =====
-- The time that `Condition::waitForSeconds` of SrcFile/Condition.c waits for.
use simple_net_base.Prelude.{◌+◌, ◌*◌, ◌≡◌, arith}
use simple_net_base.Prelude.Int.{
  ℤ, pos, neg_part, pos_part, ◌+ℤ◌, ◌≤ℤ◌, sub_ℕ, quot, rem, +ℤ_parts, eq_of_parts, sub_ℕ_parts,
  quot-rem, rem-low, rem-of_pos,
}
use simple_net_base.Locks.{Timespec, quot, rem, deadline}

-- Nanoseconds, of seconds and nanoseconds.
abbrev pub total : Timespec → ℤ
total t =
    sub_ℕ (pos_part t.tv_sec * 1_000_000_000 + pos_part t.tv_nsec)
      (neg_part t.tv_sec * 1_000_000_000 + neg_part t.tv_nsec)

-- For a clock with fewer than a thousand million nanoseconds: the deadline is the time of the clock and the
-- nanoseconds asked for, with no loss; its own nanoseconds are fewer than a thousand million either way,
-- and not negative if those of the clock and those asked for are not together.
pub deadline-total :
    (nanoseconds : ℤ) (now : Timespec)
    → pos 0 ≤ℤ now.tv_nsec
    → now.tv_nsec ≤ℤ pos 999_999_999
    → (total (deadline nanoseconds now) ≡ total now +ℤ nanoseconds)
      × ((deadline nanoseconds now).tv_nsec ≤ℤ pos 999_999_999)
      × (pos 0 ≤ℤ now.tv_nsec +ℤ nanoseconds → pos 0 ≤ℤ (deadline nanoseconds now).tv_nsec)
unfolding deadline
deadline-total nanoseconds now low high =
    let sum = now.tv_nsec +ℤ nanoseconds in
    (
      eq_of_parts _ _ (
          omega (
            arith,
            quot-rem 999_999_999 sum,
            +ℤ_parts now.tv_nsec nanoseconds,
            +ℤ_parts now.tv_sec (quot sum 1_000_000_000),
            +ℤ_parts (total now) nanoseconds,
            sub_ℕ_parts
                (pos_part (now.tv_sec +ℤ quot sum 1_000_000_000) * 1_000_000_000
                  + pos_part (rem sum 1_000_000_000))
                (neg_part (now.tv_sec +ℤ quot sum 1_000_000_000) * 1_000_000_000
                  + neg_part (rem sum 1_000_000_000)),
            sub_ℕ_parts (pos_part now.tv_sec * 1_000_000_000 + pos_part now.tv_nsec)
                (neg_part now.tv_sec * 1_000_000_000 + neg_part now.tv_nsec),
          )),
      rem-low 999_999_999 sum,
      rem-of_pos 999_999_999 sum,
    )
