-- ===== src/Session/Delivers.antt =====
-- Runs that return, whatever the ports answer, and what they return; and what a run that returned
-- went through.
use houba.Common.{◌≡◌, refl, sym, ap, subst}
use houba.Errors.{ErrorClass, Result, ok, raise, other_error}
use houba.Session.{Call, History, Io, pure, lift, ◌>>=◌, continue_with}
use houba.Session.Edges.{attempt, report}
use houba.Session.Stages.{Returns}

pub record Delivers {ℓ κ} {A : Type ℓ} (Q : A → Type κ) (io : Io A) : Type (ℓ ⊔ κ) where
  pub at : (h : History) → (value : A) × ((io h).0 ≡ ok value) × Q value

module _ {ℓ κ} {A : Type ℓ} {Q : A → Type κ} where
  pub Delivers-pure : (value : A) → Q value → Delivers Q (pure value)
  Delivers-pure value q = record { at = λ h. (value, refl, q) }

  pub Delivers-lift : (r : Result A) (value : A) → r ≡ ok value → Q value → Delivers Q (lift r)
  Delivers-lift r value e q = record { at = λ h. (value, e, q) }

  module _ {μ ν} {B : Type μ} {R : B → Type ν} where
    after_delivery :
        (rest : A → Io B) (o : Result A × History) (value : A)
        → o.0 ≡ ok value
        → Q value
        → ((a : A) → Q a → Delivers R (rest a))
        → (b : B) × ((continue_with rest o).0 ≡ ok b) × R b
    unfolding continue_with
    after_delivery rest (ok a, k) value e q f = (f a (subst (Returns Q) (sym e) q)).at k
    after_delivery rest (raise exc, k) value e q f = cc

    pub Delivers-bind :
        (first : Io A) (rest : A → Io B)
        → Delivers Q first
        → ((a : A) → Q a → Delivers R (rest a))
        → Delivers R (first >>= rest)
    unfolding ◌>>=◌
    Delivers-bind first rest d f = record {
      at = λ h. let (value, e, q) = d.at h in after_delivery rest (first h) value e q f;
    }

abbrev pub Anything {ℓ} : {A : Type ℓ} → A → Type 0
Anything value = Unit

pub Delivers-attempt {ℓ} : {A : Type ℓ} (body : Io A) → Delivers Anything (attempt body)
unfolding attempt
Delivers-attempt body = record { at = λ h. ((body h).0, refl, tt) }

pub Delivers-report : (call : Call) → Delivers Anything (report call)
Delivers-report call = record { at = λ h. (tt, refl, tt) }

-- The class of an exception, any other for a value.
raised_class {ℓ} : {A : Type ℓ} → Result A → ErrorClass
raised_class (ok a) = other_error
raised_class (raise exc) = exc

-- A sequence that returned has a first part that returned.
module _ {ℓ κ} {A : Type ℓ} {B : Type κ} where
  continue_inversion :
      (rest : A → Io B) (o : Result A × History) (b : B)
      → (continue_with rest o).0 ≡ ok b
      → (a : A) × (o.0 ≡ ok a) × ((rest a o.1).0 ≡ ok b)
  unfolding continue_with
  continue_inversion rest (ok a, k) b e = (a, refl, e)
  continue_inversion rest (raise exc, k) b e = cc

  pub sequence_inversion :
      (first : Io A) (rest : A → Io B) (h : History) (b : B)
      → ((first >>= rest) h).0 ≡ ok b
      → (a : A) × ((first h).0 ≡ ok a) × ((rest a (first h).1).0 ≡ ok b)
  unfolding ◌>>=◌
  sequence_inversion first rest h b e = continue_inversion rest (first h) b e

  continue_raised :
      (rest : A → Io B) (o : Result A × History) (exc : ErrorClass)
      → o.0 ≡ raise exc
      → ((continue_with rest o).0 ≡ raise exc) × ((continue_with rest o).1 ≡ o.1)
  unfolding continue_with raised_class
  continue_raised rest (ok a, k) exc e = cc
  continue_raised rest (raise other, k) exc e = (ap raise (ap raised_class e), refl)

  -- What raises ends a sequence.
  pub sequence_raised :
      (first : Io A) (rest : A → Io B) (h : History) (exc : ErrorClass)
      → (first h).0 ≡ raise exc
      → (((first >>= rest) h).0 ≡ raise exc) × (((first >>= rest) h).1 ≡ (first h).1)
  unfolding ◌>>=◌
  sequence_raised first rest h exc e = continue_raised rest (first h) exc e

  module _ {ν} {R : B → Type ν} where
    continue_returned :
        (rest : A → Io B) (o : Result A × History) (value : A)
        → o.0 ≡ ok value
        → Delivers R (rest value)
        → (b : B) × ((continue_with rest o).0 ≡ ok b) × R b
    unfolding continue_with
    continue_returned rest (ok a, k) value e d =
        (subst (Returns (λ v. Delivers R (rest v))) (sym e) d).at k
    continue_returned rest (raise exc, k) value e d = cc

    pub sequence_returned :
        (first : Io A) (rest : A → Io B) (h : History) (value : A)
        → (first h).0 ≡ ok value
        → Delivers R (rest value)
        → (b : B) × (((first >>= rest) h).0 ≡ ok b) × R b
    unfolding ◌>>=◌
    sequence_returned first rest h value e d = continue_returned rest (first h) value e d
