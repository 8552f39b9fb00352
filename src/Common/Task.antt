-- ===== src/Common/Task.antt =====
-- Tasks, src/Common/Task.h. A task's function is named by a number, and times are milliseconds of the
-- system clock, which is an argument. `none` is boost's not_a_date_time.
use lotospp.Base.{ℕ, ◌+◌, Bool, false, Option, none, some, ltb}

pub record Task : Type 0 where
  pub function : ℕ
  pub expiration : Option ℕ

pub create_task : ℕ → Task
create_task f = record { function = f; expiration = none }

-- The overload with an expiration, at time `now`.
pub create_expiring_task : ℕ → ℕ → ℕ → Task
create_expiring_task now ms f = record { function = f; expiration = some (now + ms) }

pub set_dont_expire : Task → Task
set_dont_expire t = record t { expiration = none }

unfoldable pub has_expired : ℕ → Task → Bool
has_expired now t = elim t.expiration [ none ↦ false | some e ↦ ltb e now ]
