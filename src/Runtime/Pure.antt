-- ===== src/Runtime/Pure.antt =====
-- Functions that touch no state and may raise.
use df_local_foundation.Prelude.{◌≡◌, refl, if◌then◌else◌}
use df_local_foundation.Runtime.{type_error, Outcome, ok, raised, diverged, Level, is_enabled}

infixl 5 ◌>>=◌ ◌>>◌
abbrev pub ◌>>=◌ {ℓ κ} : {A : Type ℓ} {B : Type κ} → Outcome A → (A → Outcome B) → Outcome B
ok a >>= f = f a
raised e >>= f = raised e
diverged >>= f = diverged

abbrev pub ◌>>◌ {ℓ κ} : {A : Type ℓ} {B : Type κ} → Outcome A → Outcome B → Outcome B
m >> k = m >>= λ _. k

-- A call of `logging` with keyword fields, as `log_fields`.
abbrev pub log_fields : Level → Level → Outcome (Unit {0})
log_fields threshold level = if is_enabled threshold level then raised type_error else ok tt

-- A chain that ends well went well so far.
pub bound {ℓ κ} :
    {A : Type ℓ} {B : Type κ} (m : Outcome A) (f : A → Outcome B) (b : B)
    → (m >>= f) ≡ ok b
    → (a : A) × (m ≡ ok a) × (f a ≡ ok b)
bound (ok a) f b h = (a, refl, h)
bound (raised e) f b h = cc
bound diverged f b h = cc
