-- ===== src/Session/Answers.antt =====
-- Runs that return a value whatever the ports answer.
use houba.Common.{Bool, true, false, ◌≡◌, refl, List, [], ◌∷◌, All, if◌then◌else◌}
use houba.Errors.{ErrorClass, Result, ok, raise, is_ok}
use houba.Session.{History, Io, pure, lift, ◌>>=◌, continue_with, for_each}
use houba.Session.Edges.{rescue, rescued, run_stage}

pub record Answers {ℓ} {A : Type ℓ} (io : Io A) : Type 0 where
  pub at : (h : History) → is_ok (io h).0 ≡ true

module _ {ℓ} {A : Type ℓ} where
  pub Answers-pure : (value : A) → Answers (pure value)
  Answers-pure value = record { at = λ h. refl }

  pub Answers-if :
      (b : Bool) (then_io else_io : Io A)
      → Answers then_io
      → Answers else_io
      → Answers (if b then then_io else else_io)
  Answers-if true then_io else_io y n = y
  Answers-if false then_io else_io y n = n

  rescued-Answers :
      (handler : ErrorClass → Io A) (o : Result A × History)
      → ((exc : ErrorClass) → Answers (handler exc))
      → is_ok (rescued handler o).0 ≡ true
  unfolding rescued
  rescued-Answers handler (ok value, k) f = refl
  rescued-Answers handler (raise exc, k) f = (f exc).at k

  -- Whatever is raised in the body, the handler answers.
  pub Answers-rescue :
      (body : Io A) (handler : ErrorClass → Io A)
      → ((exc : ErrorClass) → Answers (handler exc))
      → Answers (rescue body handler)
  unfolding rescue
  Answers-rescue body handler f = record { at = λ h. rescued-Answers handler (body h) f }

module _ {ℓ κ} {A : Type ℓ} {B : Type κ} where
  after_answer :
      (rest : A → Io B) (o : Result A × History)
      → is_ok o.0 ≡ true
      → ((a : A) → Answers (rest a))
      → is_ok (continue_with rest o).0 ≡ true
  unfolding continue_with
  after_answer rest (ok value, k) e f = (f value).at k
  after_answer rest (raise exc, k) e f = cc

  pub Answers-bind :
      (first : Io A) (rest : A → Io B)
      → Answers first
      → ((a : A) → Answers (rest a))
      → Answers (first >>= rest)
  unfolding ◌>>=◌
  Answers-bind first rest a f = record { at = λ h. after_answer rest (first h) (a.at h) f }

  pub Answers-bind_lift :
      (r : Result A) (rest : A → Io B)
      → is_ok r ≡ true
      → ((a : A) → Answers (rest a))
      → Answers (lift r >>= rest)
  Answers-bind_lift r rest e f = Answers-bind (lift r) rest (record { at = λ h. e }) f

module _ {ℓ κ} {A : Type ℓ} {B : Type κ} where
  pub Answers-for_each :
      (body : A → Io (List B)) (xs : List A)
      → All (λ x. Answers (body x)) xs
      → Answers (for_each body xs)
  unfolding for_each
  Answers-for_each body [] h = Answers-pure []
  Answers-for_each body (x ∷ xs) h =
      Answers-bind _ _ h.0
        (λ first. Answers-bind _ _ (Answers-for_each body xs h.1) (λ rest. Answers-pure _))

  pub Answers-run_stage :
      (fn : A → Io B) (items : List A)
      → All (λ x. Answers (fn x)) items
      → Answers (run_stage fn items)
  unfolding run_stage
  Answers-run_stage fn items h = Answers-for_each _ items (each items h)
    where
      each :
          (xs : List A)
          → All (λ x. Answers (fn x)) xs
          → All (λ x. Answers (fn x >>= (λ op. pure (op ∷ [])))) xs
      each [] h = tt
      each (x ∷ xs) h = (Answers-bind _ _ h.0 (λ op. Answers-pure _), each xs h.1)
