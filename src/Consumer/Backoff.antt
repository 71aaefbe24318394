-- ===== src/Consumer/Backoff.antt =====
-- wakuwaku-iggy/src/utils/backoff.rs. A duration is a number of nanoseconds.
pub mod Returns
use wakuwaku.Base.{
  ℕ, zero, suc, List, [], ◌∷◌, Option, none, some, get_elem?, Result, ok, err, saturating_add,
}

abbrev pub Duration : Type 0
Duration = ℕ

-- `delays.last()`
pub last : List Duration → Option Duration
last [] = none
last (d ∷ []) = some d
last (d ∷ e ∷ ds) = last (e ∷ ds)

-- `.or_else(..)` and `.unwrap_or(..)`
abbrev pub or_else : Option Duration → Option Duration → Option Duration
or_else none o = o
or_else (some d) o = some d

abbrev pub unwrap_or : Option Duration → Duration → Duration
unwrap_or none d = d
unwrap_or (some e) d = e

unfoldable pub delay_for : List Duration → ℕ → Duration
unfolding last
delay_for delays attempt = unwrap_or (or_else (get_elem? delays attempt) (last delays)) 0

-- `until_ok`, at most `fuel` calls of the operation, from the attempt of a number on; `none` stands for
-- a call that is still repeated.
unfoldable pub until_ok :
    {W E A : Type 0}
    → (Duration → W → W)
    → List Duration
    → (W → W × Result E A)
    → ℕ
    → ℕ
    → W
    → Option (W × A)
unfolding delay_for
until_ok sleep delays op zero attempt w = none
until_ok sleep delays op (suc fuel) attempt w =
    let (w', result) = op w in
    let rest =
      until_ok sleep delays op fuel (saturating_add attempt 1)
        (sleep (delay_for delays attempt) w') in
    elim result [ ok a ↦ some (w', a) | err e ↦ rest ]
