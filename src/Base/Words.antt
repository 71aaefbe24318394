-- ===== src/Base/Words.antt =====
-- Saturating arithmetic on the 64-bit unsigned integers (`u64` and `usize`), and division that rounds up.
use Prim.Native.Nat.{ℕ, ◌+◌, ◌-◌, ◌*◌, ◌/◌, ◌≤◌, ◌<◌}
use mathlib.Core.Logic.{◌↔◌}
use native.Mathlib.Nat.{div-lt_iff_lt-mul, add-mul}
use native.Mathlib.Omega.{arith}
use mathlib.Core.Option.{Option, none, some}
use wakuwaku.Base.Tests.{leb, if◌then◌else◌}

abbrev pub u64_max : ℕ
u64_max = 18446744073709551615

-- `a.saturating_add(b)`
abbrev pub saturating_add : ℕ → ℕ → ℕ
saturating_add a b = if leb (a + b) u64_max then a + b else u64_max

-- `a.saturating_sub(b)`: subtraction on ℕ stops at 0 as it does.
abbrev pub saturating_sub : ℕ → ℕ → ℕ
saturating_sub a b = a - b

-- `a.checked_sub(b)`
abbrev pub checked_sub : ℕ → ℕ → Option ℕ
checked_sub a b = if leb b a then some (a - b) else none

-- Rust's `a.div_ceil(b)`, and Lua's `math.ceil(a / b)`
abbrev pub ceil_div : ℕ → ℕ → ℕ
ceil_div a b = (a + (b - 1)) / b

-- Rounding up is the least number that is enough.
pub ceil_div_iff : (a b n : ℕ) → 0 < b → (ceil_div a b ≤ n) ↔ (a ≤ n * b)
ceil_div_iff a b n h =
    let (f, g) = div-lt_iff_lt-mul {k = b} {x = a + (b - 1)} {y = n + 1} h in
    let e = add-mul n 1 b in
    (λ l. let q = f (omega arith) in omega arith, λ l. let q = g (omega arith) in omega arith)
