-- ===== src/Lrtos/Counter.antt =====
-- The signed counter of a task of lrtos: a tick can take it below 0.
use avisor.Prelude.Int.{ℤ, pos, negsuc}
use avisor.Prelude.{ℕ, zero, suc, ◌+◌, ◌-◌, ◌/◌, if◌then◌else◌, leb}

abbrev pub decrement : ℤ → ℤ
decrement (pos zero) = negsuc 0
decrement (pos (suc n)) = pos n
decrement (negsuc n) = negsuc (n + 1)

-- `(p->counter >> 1) + p->priority`
abbrev pub recharged : ℤ → (priority : ℕ) → ℤ
recharged (pos n) priority = pos (n / 2 + priority)
recharged (negsuc n) priority =
    if leb (n / 2 + 1) priority then pos (priority - (n / 2 + 1)) else negsuc (n / 2 - priority)
