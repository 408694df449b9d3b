-- ===== src/Service/Health/Acknowledged.antt =====
-- The contract of every operation that a caller is answered: a refusal has no effect, and what is
-- acknowledged is on disk unless the failed save is on record.

use stattii.Base.{Bool, Result, err, false, if◌then◌else◌, ok, true, ◌≡◌}
use stattii.Service.Defs.{Service}
use stattii.Service.Health.Durability.{Durable}

abbrev pub Acknowledged {ℓ} : {A : Type ℓ} → Service → Result A × Service → Type 0
Acknowledged w (ok a, v) = Durable v
Acknowledged w (err e, v) = v ≡ w

-- A locked half: a refusal has no effect.
abbrev pub Refuses {ℓ} : {A : Type ℓ} → Service → Result A × Service → Type 0
Refuses w (ok a, v) = Unit
Refuses w (err e, v) = v ≡ w

pub Refuses-if {ℓ} :
    {A : Type ℓ} (b : Bool) (w : Service) (x y : Result A × Service)
    → Refuses w x
    → Refuses w y
    → Refuses w (if b then x else y)
Refuses-if true w x y h k = h
Refuses-if false w x y h k = k

pub Acknowledged-if {ℓ} :
    {A : Type ℓ} (b : Bool) (w : Service) (x y : Result A × Service)
    → Acknowledged w x
    → Acknowledged w y
    → Acknowledged w (if b then x else y)
Acknowledged-if true w x y h k = h
Acknowledged-if false w x y h k = k
