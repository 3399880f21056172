-- ===== src/Api/Status.antt =====
-- A step of a handler of api/ that writes an error and returns: its HTTP status is the error.
use obsideo_provider.Base.{ℕ, Option, none, some, Bool, true, false, Result, ok, err}

abbrev pub or_status {ℓ} : {A : Type ℓ} → Option A → ℕ → Result ℕ A
or_status none st = err st
or_status (some a) st = ok a

abbrev pub expect : Bool → ℕ → Result ℕ (Unit {0})
expect true st = ok tt
expect false st = err st
