-- ===== src/Session/Stages.antt =====
-- What the building blocks of a reconcile run keep.
use houba.Common.{Bool, true, false, ◌≡◌, refl, ap, List, [], ◌∷◌, ◌++◌, All, if◌then◌else◌}
use houba.Errors.{ErrorClass, Result, ok, raise}
use houba.Session.{Call, History, Io, pure, lift, ◌>>=◌, continue_with, perform, for_each}
use houba.Session.Keeps.{Keeps-bind, Keeps-for_each}
use houba.Session.Edges.{rescue, rescued, run_stage}

-- `Keeps` as a record, so that a run can be read off its type.
pub record Holds {κ ℓ} {A : Type ℓ} (P : History → Type κ) (io : Io A) : Type κ where
  pub at : (h : History) → P h → P (io h).1

module _ {κ} {P : History → Type κ} where
  pub Holds-pure {ℓ} : {A : Type ℓ} (value : A) → Holds P (pure value)
  Holds-pure value = record { at = λ h p. p }

  pub Holds-lift {ℓ} : {A : Type ℓ} (r : Result A) → Holds P (lift r)
  Holds-lift r = record { at = λ h p. p }

  -- A call that keeps the predicate, whatever it answers.
  pub Holds-call {ℓ} :
      {A : Type ℓ} (call : Call) (answer : History → Result A)
      → ((h : History) → P h → P (call ∷ h))
      → Holds P (perform call answer)
  Holds-call call answer f = record { at = f }

  module _ {ℓ μ} {A : Type ℓ} {B : Type μ} where
    pub Holds-bind :
        (first : Io A) (rest : A → Io B)
        → Holds P first
        → ((a : A) → Holds P (rest a))
        → Holds P (first >>= rest)
    Holds-bind first rest f r = record { at = Keeps-bind P first rest f.at (λ a. (r a).at) }

    pub Holds-bind_lift :
        (r : Result A) (rest : A → Io B)
        → ((a : A) → r ≡ ok a → Holds P (rest a))
        → Holds P (lift r >>= rest)
    unfolding ◌>>=◌ continue_with
    Holds-bind_lift (ok a) rest f = record { at = λ h p. (f a refl).at h p }
    Holds-bind_lift (raise exc) rest f = record { at = λ h p. p }

    pub Holds-for_each :
        (body : A → Io (List B)) (xs : List A)
        → ((x : A) → Holds P (body x))
        → Holds P (for_each body xs)
    Holds-for_each body xs f = record { at = Keeps-for_each P body xs (λ x. (f x).at) }

    pub Holds-run_stage :
        (fn : A → Io B) (items : List A) → ((x : A) → Holds P (fn x)) → Holds P (run_stage fn items)
    unfolding run_stage
    Holds-run_stage fn items f = record {
      at =
          Keeps-for_each P (λ item. fn item >>= (λ op. pure (op ∷ []))) items
            (λ x. Keeps-bind P (fn x) (λ op. pure (op ∷ [])) (f x).at (λ op h p. p));
    }

  module _ {ℓ} {A : Type ℓ} where
    pub Holds-if :
        (b : Bool) (then_io else_io : Io A)
        → Holds P then_io
        → Holds P else_io
        → Holds P (if b then then_io else else_io)
    Holds-if true then_io else_io y n = y
    Holds-if false then_io else_io y n = n

    rescued-keeps :
        (handler : ErrorClass → Io A) (o : Result A × History)
        → P o.1
        → ((exc : ErrorClass) → Holds P (handler exc))
        → P (rescued handler o).1
    unfolding rescued
    rescued-keeps handler (ok value, k) q f = q
    rescued-keeps handler (raise exc, k) q f = (f exc).at k q

    pub Holds-rescue :
        (body : Io A) (handler : ErrorClass → Io A)
        → Holds P body
        → ((exc : ErrorClass) → Holds P (handler exc))
        → Holds P (rescue body handler)
    unfolding rescue
    Holds-rescue body handler b f = record {
      at = λ h p. rescued-keeps handler (body h) (b.at h p) f;
    }

-- What is returned, if anything, satisfies a predicate.
abbrev pub Returns {ℓ κ} : {A : Type ℓ} → (A → Type κ) → Result A → Type κ
Returns Q (ok value) = Q value
Returns Q (raise exc) = Unit

-- A run that keeps `P` and returns only what satisfies `Q`.
pub record Gives {κ ℓ μ} {A : Type ℓ} (P : History → Type κ) (Q : A → Type μ) (io : Io A)
    : Type (κ ⊔ μ) where
  pub at : (h : History) → P h → P (io h).1 × Returns Q (io h).0

module _ {κ ℓ μ} {P : History → Type κ} {B : Type ℓ} {Q : B → Type μ} where
  pub Gives-pure : (value : B) → Q value → Gives P Q (pure value)
  Gives-pure value q = record { at = λ h p. (p, q) }

  pub Gives-raise : (exc : ErrorClass) → Gives P Q (lift (raise exc))
  Gives-raise exc = record { at = λ h p. (p, tt) }

  module _ {ν} {A : Type ν} where
    after_first :
        (rest : A → Io B) (o : Result A × History)
        → P o.1
        → ((a : A) → Gives P Q (rest a))
        → P (continue_with rest o).1 × Returns Q (continue_with rest o).0
    unfolding continue_with
    after_first rest (ok value, k) q f = (f value).at k q
    after_first rest (raise exc, k) q f = (q, tt)

    pub Gives-bind :
        (first : Io A) (rest : A → Io B)
        → Holds P first
        → ((a : A) → Gives P Q (rest a))
        → Gives P Q (first >>= rest)
    unfolding ◌>>=◌
    Gives-bind first rest f g = record { at = λ h p. after_first rest (first h) (f.at h p) g }

module _ {κ ℓ μ ν} {P : History → Type κ} {A : Type ℓ} {B : Type μ} {Q : A → Type ν} where
  after_given :
      (rest : A → Io B) (o : Result A × History)
      → P o.1
      → Returns Q o.0
      → ((a : A) → Q a → Holds P (rest a))
      → P (continue_with rest o).1
  unfolding continue_with
  after_given rest (ok value, k) q r f = (f value r).at k q
  after_given rest (raise exc, k) q r f = q

  pub Holds-bind_given :
      (first : Io A) (rest : A → Io B)
      → Gives P Q first
      → ((a : A) → Q a → Holds P (rest a))
      → Holds P (first >>= rest)
  unfolding ◌>>=◌
  Holds-bind_given first rest g f = record {
    at = λ h p. let (kept, given) = g.at h p in after_given rest (first h) kept given f;
  }

-- The calls that were added to a history all satisfy a predicate.
pub record IsAdded {κ} (Q : Call → Type κ) (before h : History) : Type κ where
  pub new : History
  pub calls : h ≡ new ++ before
  pub each : All Q new

pub IsAdded-call {κ} :
    {Q : Call → Type κ} {before : History} (call : Call)
    → Q call
    → (h : History) → IsAdded Q before h
    → IsAdded Q before (call ∷ h)
IsAdded-call call q h a = record {
  new = call ∷ a.new;
  calls = ap (λ k. call ∷ k) a.calls;
  each = (q, a.each);
}
