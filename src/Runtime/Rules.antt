-- ===== src/Runtime/Rules.antt =====
-- What every normal return of a coroutine satisfies, by one rule for each way to build one.
use mathlib.Core.Path.{subst}
use df_local_foundation.Prelude.{◌≢◌, ◌⊎◌, inl, inr, ◌≡◌, refl, Bool, true, false, if◌then◌else◌}
use df_local_foundation.Runtime.{
  Exc, Outcome, ok, raised, diverged, Py, pure, raise, ◌>>=◌, try_except, try_finally, continue,
  handle, settle, conclude, branch, try_else,
}

abbrev pub OnOk {ℓ κ} : {A : Type ℓ} → (A → Type κ) → Outcome A → Type κ
OnOk P (ok a) = P a
OnOk P (raised e) = Unit
OnOk P diverged = Unit

-- What a normal outcome satisfies, its value satisfies.
pub of_ok {ℓ κ} : {A : Type ℓ} (P : A → Type κ) (r : Outcome A) (a : A) → OnOk P r → r ≡ ok a → P a
of_ok P r a h e = subst (OnOk P) e h

pub OnOk-map {ℓ κ μ} :
    {A : Type ℓ} (P : A → Type κ) (Q : A → Type μ) (r : Outcome A)
    → ((a : A) → P a → Q a)
    → OnOk P r
    → OnOk Q r
OnOk-map P Q (ok a) h p = h a p
OnOk-map P Q (raised e) h p = tt
OnOk-map P Q diverged h p = tt

-- Whether a procedure has returned.
pub returned-cases : (r : Outcome (Unit {0})) → (r ≡ ok tt) ⊎ (r ≢ ok tt)
returned-cases (ok tt) = inl refl
returned-cases (raised e) = inr (λ h. cc)
returned-cases diverged = inr (λ h. cc)

-- Whatever the state, a value that `m` returns satisfies `P`.
pub record Returns {ℓ} {S A : Type ℓ} (P : A → Type ℓ) (m : Py S A) : Type ℓ where
  pub at : (s : S) → OnOk P (m s).0

module _ {ℓ} {S A : Type ℓ} {P : A → Type ℓ} where
  pub Returns-pure : (a : A) → P a → Returns {S = S} P (pure a)
  Returns-pure a h = record { at = λ s. h }

  pub Returns-raise : (e : Exc) → Returns {S = S} P (raise e)
  Returns-raise e = record { at = λ s. tt }

  pub Returns-if :
      (b : Bool) (m n : Py S A)
      → (b ≡ true → Returns P m)
      → (b ≡ false → Returns P n)
      → Returns P (if b then m else n)
  Returns-if true m n km kn = km refl
  Returns-if false m n km kn = kn refl

  handle-OnOk :
      (r : Outcome A) (h : Exc → Py S A) (s : S)
      → OnOk P r
      → ((e : Exc) → Returns P (h e))
      → OnOk P (handle r h s).0
  handle-OnOk (ok a) h s k kh = k
  handle-OnOk (raised e) h s k kh = (kh e).at s
  handle-OnOk diverged h s k kh = tt

  pub Returns-try_except :
      (m : Py S A) (h : Exc → Py S A)
      → Returns P m
      → ((e : Exc) → Returns P (h e))
      → Returns P (try_except m h)
  Returns-try_except m h km kh = record { at = λ s. handle-OnOk (m s).0 h (m s).1 (km.at s) kh }

module _ {ℓ} {S A B : Type ℓ} {P : B → Type ℓ} where
  continue-OnOk :
      (r : Outcome A) (f : A → Py S B) (s : S)
      → ((a : A) → Returns P (f a))
      → OnOk P (continue r f s).0
  continue-OnOk (ok a) f s kf = (kf a).at s
  continue-OnOk (raised e) f s kf = tt
  continue-OnOk diverged f s kf = tt

  pub Returns-bind :
      (m : Py S A) (f : A → Py S B) → ((a : A) → Returns P (f a)) → Returns P (m >>= f)
  Returns-bind m f kf = record { at = λ s. continue-OnOk (m s).0 f (m s).1 kf }

-- The middle condition is what the first part returns.
module _ {ℓ} {S A B : Type ℓ} {Q : A → Type ℓ} {P : B → Type ℓ} where
  continue-OnOk_mid :
      (r : Outcome A) (f : A → Py S B) (s : S)
      → OnOk Q r
      → ((a : A) → Q a → Returns P (f a))
      → OnOk P (continue r f s).0
  continue-OnOk_mid (ok a) f s q kf = (kf a q).at s
  continue-OnOk_mid (raised e) f s q kf = tt
  continue-OnOk_mid diverged f s q kf = tt

  pub Returns-bind_mid :
      (m : Py S A) (f : A → Py S B)
      → Returns Q m
      → ((a : A) → Q a → Returns P (f a))
      → Returns P (m >>= f)
  Returns-bind_mid m f km kf = record { at = λ s. continue-OnOk_mid (m s).0 f (m s).1 (km.at s) kf }

module _ {ℓ} {S A B : Type ℓ} (P : A → Type ℓ) where
  settle-OnOk : (r : Outcome A) (q : Outcome B × S) → OnOk P r → OnOk P (settle r q).0
  settle-OnOk r (ok b, s) k = k
  settle-OnOk r (raised e, s) k = tt
  settle-OnOk r (diverged, s) k = tt

  pub conclude-OnOk :
      (r : Outcome A) (last : Py S B) (s : S) → OnOk P r → OnOk P (conclude r last s).0
  conclude-OnOk (ok a) last s k = settle-OnOk (ok a) (last s) k
  conclude-OnOk (raised e) last s k = settle-OnOk (raised e) (last s) tt
  conclude-OnOk diverged last s k = tt

module _ {ℓ} {S A B : Type ℓ} {P : A → Type ℓ} where
  pub Returns-try_finally :
      (m : Py S A) (last : Py S B) → Returns P m → Returns P (try_finally m last)
  Returns-try_finally m last km = record {
    at = λ s. conclude-OnOk P (m s).0 last (m s).1 (km.at s);
  }

module _ {ℓ} {S A B : Type ℓ} {P : B → Type ℓ} where
  branch-OnOk :
      (r : Outcome A) (h : Exc → Py S B) (rest : A → Py S B) (s : S)
      → ((e : Exc) → Returns P (h e))
      → ((a : A) → Returns P (rest a))
      → OnOk P (branch r h rest s).0
  branch-OnOk (ok a) h rest s kh kr = (kr a).at s
  branch-OnOk (raised e) h rest s kh kr = (kh e).at s
  branch-OnOk diverged h rest s kh kr = tt

  pub Returns-try_else :
      (m : Py S A) (h : Exc → Py S B) (rest : A → Py S B)
      → ((e : Exc) → Returns P (h e))
      → ((a : A) → Returns P (rest a))
      → Returns P (try_else m h rest)
  Returns-try_else m h rest kh kr = record { at = λ s. branch-OnOk (m s).0 h rest (m s).1 kh kr }

-- The same from one state, where the rest may use what the first part returned.
module _ {ℓ} {S A B : Type ℓ} (P : B → Type ℓ) where
  pub continue_at :
      (r : Outcome A) (f : A → Py S B) (s : S)
      → ((a : A) → r ≡ ok a → OnOk P (f a s).0)
      → OnOk P (continue r f s).0
  continue_at (ok a) f s k = k a refl
  continue_at (raised e) f s k = tt
  continue_at diverged f s k = tt

-- Two ways to go on that do the same with what was returned.
pub continue_agrees {ℓ} :
    {S A B : Type ℓ} (r : Outcome A) (f g : A → Py S B) (s : S)
    → ((a : A) → r ≡ ok a → f a s ≡ g a s)
    → continue r f s ≡ continue r g s
continue_agrees (ok a) f g s h = h a refl
continue_agrees (raised e) f g s h = refl
continue_agrees diverged f g s h = refl
