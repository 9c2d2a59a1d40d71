-- ===== src/Contest/Labels.antt =====
-- frontend/src/app/contests/[id]/contest-body.tsx, lines 39 to 77: the countdown, the labels of the
-- problems and the duration.
use jjudge.Prelude.{
  ℕ, ◌+◌, ◌-◌, ◌*◌, ◌/◌, ◌%◌, ◌≤◌, ◌<◌, ◌≡◌, arith, All, to_string, pad_start, value,
  value-replicate, value-to_string, length, ltb, if◌then◌else◌,
}
use jjudge.Contest.{pad, to_parts, ordinal_label}

value-pad : (n : ℕ) → value (pad n) ≡ n
unfolding pad pad_start
value-pad n = rw (value-replicate (2 - length (to_string n)) (to_string n)) (value-to_string n)

-- The countdown shows the whole seconds that remain, as hours, minutes and seconds, the latter two
-- below 60.
pub to_parts-value :
    (ms : ℕ)
    → let p = to_parts ms in
      (value p.h * 3600 + value p.m * 60 + value p.s ≡ ms / 1000)
      × (value p.m < 60)
      × (value p.s < 60)
unfolding to_parts
to_parts-value ms =
    rw (value-pad (ms / 1000 / 3600), value-pad (ms / 1000 % 3600 / 60), value-pad (ms / 1000 % 60))
      (omega arith)

abbrev pub IsLetter : ℕ → Type 0
IsLetter c = (b'A' ≤ c) × (c ≤ b'Z')

-- Up to 702 problems have labels of capital letters, one letter for each of the first 26 and two for
-- the others, all of them different.
pub ordinal_label-injective :
    (n m : ℕ)
    → n < 702
    → m < 702
    → (length (ordinal_label n) ≡ (if ltb n 26 then 1 else 2))
      × All IsLetter (ordinal_label n)
      × (ordinal_label n ≡ ordinal_label m → n ≡ m)
unfolding ordinal_label
ordinal_label-injective n m h k = (ground arith, ground arith, λ e. ground arith)
