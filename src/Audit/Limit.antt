-- ===== src/Audit/Limit.antt =====
-- What the limit of an audit bounds.
use houba.Common.{
  ℕ, zero, suc, ◌+◌, ◌≤◌, String, ◌≡◌, subst, Bool, false, ◌||◌, Option, none, some, List, [], ◌∷◌,
  ◌++◌, length, length-append, arith, Bool-cases, inl, inr,
}
use houba.Errors.{Result, ok, raise, Result-cases}
use houba.Config.{RegistryConfig, Roster}
use houba.Session.{History, Ports, Io, pure, continue_with, ◌>>=◌, for_each_with, targets_of}
use houba.Scan.Refs.{is_referrers_fallback_tag}
use houba.Audit.{
  CoverageOutcome, CoverageReport, is_spent, spend, audit_tag, audit_repo, audit_registry,
  audit_coverage, report_on,
}

-- What is left of a limit after some outcomes.
abbrev Fits {ℓ} : {A : Type ℓ} → Option ℕ → List A → Option ℕ → Type 0
Fits none outcomes none = Unit
Fits (some n) outcomes (some k) = length outcomes + k ≡ n
Fits _ outcomes _ = ⊥

Fits-append {ℓ} :
    {A : Type ℓ} (a b c : Option ℕ) (xs ys : List A)
    → Fits a xs b
    → Fits b ys c
    → Fits a (xs ++ ys) c
Fits-append none none none xs ys h k = tt
Fits-append (some n) (some m) (some l) xs ys h k = omega (arith, length-append xs ys, h, k)
Fits-append none none (some l) xs ys h k = absurd k
Fits-append none (some m) c xs ys h k = absurd h
Fits-append (some n) none c xs ys h k = absurd h
Fits-append (some n) (some m) none xs ys h k = absurd k

Fits-nil {ℓ} : (A : Type ℓ) (s : Option ℕ) → Fits {A = A} s [] s
Fits-nil A none = tt
Fits-nil A (some n) = omega arith

module _ {ℓ κ} {B : Type ℓ} {S : Type κ} (left : S → Option ℕ) where
  -- A loop body that returned has spent as much of the limit as it has outcomes.
  unfoldable Spends : S → Result (List B × S) × History → Type 0
  Spends s (ok (bs, t), h) = Fits (left s) bs (left t)
  Spends s (raise exc, h) = Unit

  module _ {ℓ'} {A : Type ℓ'} (body : A → S → Io (List B × S))
      (spends : (x : A) (s : S) (h : History) → Spends s (body x s h)) where
    join_rest :
        (s t : S) (first : List B) (o : Result (List B × S) × History)
        → Fits (left s) first (left t)
        → Spends t o
        → Spends s (continue_with (λ more. pure (first ++ more.0, more.1)) o)
    unfolding continue_with Spends
    join_rest s t first (ok (rest, u), h) f g =
        Fits-append (left s) (left t) (left u) first rest f g
    join_rest s t first (raise exc, h) f g = tt

    after_first :
        (xs : List A) (s : S) (o : Result (List B × S) × History)
        → ((t : S) (h : History) → Spends t (for_each_with body xs t h))
        → Spends s o
        → Spends s (
            continue_with
              (λ first. for_each_with body xs first.1 >>= λ more. pure (first.0 ++ more.0, more.1))
              o)
    unfolding continue_with ◌>>=◌ Spends
    after_first xs s (ok (first, t), h) rest f =
        join_rest s t first (for_each_with body xs t h) f (rest t h)
    after_first xs s (raise exc, h) rest f = tt

    for_each_with-Spends :
        (xs : List A) (s : S) (h : History) → Spends s (for_each_with body xs s h)
    unfolding for_each_with ◌>>=◌ Spends
    for_each_with-Spends [] s h = Fits-nil B (left s)
    for_each_with-Spends (x ∷ xs) s h =
        after_first xs s (body x s h) (λ t k. for_each_with-Spends xs t k) (spends x s h)

-- The limit itself is the state of the inner loops, a part of it of the outer one.
abbrev whole : Option ℕ → Option ℕ
whole left = left

abbrev of_session : List String × Option ℕ → Option ℕ
of_session s = s.1

Spends-nothing :
    (left : Option ℕ) (h : History) → Spends {B = CoverageOutcome} whole left (ok ([], left), h)
unfolding Spends
Spends-nothing left h = Fits-nil CoverageOutcome left

module _ {ℓ κ μ} {A : Type μ} {B : Type ℓ} {S : Type κ} (left : S → Option ℕ) where
  after_read :
      (s : S) (rest : A → Io (List B × S)) (o : Result A × History)
      → ((a : A) (h : History) → Spends left s (rest a h))
      → Spends left s (continue_with rest o)
  unfolding continue_with Spends
  after_read s rest (ok a, h) f = f a h
  after_read s rest (raise exc, h) f = tt

  -- A call before the loop spends nothing.
  Spends-bind :
      (s : S) (first : Io A) (rest : A → Io (List B × S)) (h : History)
      → ((a : A) (h : History) → Spends left s (rest a h))
      → Spends left s ((first >>= rest) h)
  unfolding ◌>>=◌
  Spends-bind s first rest h f = after_read s rest (first h) f

module _ (ports : Ports) (label_prefix : String) (check_signed check_sbom : Bool) where
  outcome-Spends :
      (left : Option ℕ) (o : Result CoverageOutcome × History)
      → is_spent left ≡ false
      → Spends whole left (continue_with (λ outcome. pure (outcome ∷ [], spend left)) o)
  unfolding continue_with Spends
  outcome-Spends none (ok outcome, h) e = tt
  outcome-Spends (some zero) (ok outcome, h) e = cc
  outcome-Spends (some (suc n)) (ok outcome, h) e = omega arith
  outcome-Spends left (raise exc, h) e = tt

  audit_tag-Spends :
      (repo_ref tag : String) (left : Option ℕ) (h : History)
      → Spends whole left (audit_tag ports label_prefix check_signed check_sbom repo_ref tag left h)
  unfolding audit_tag ◌>>=◌ Spends
  audit_tag-Spends repo_ref tag left h =
      elim (Bool-cases (is_spent left || is_referrers_fallback_tag tag)) [
        | inl e ↦ rw e (Fits-nil CoverageOutcome left)
        | inr e ↦ rw e (outcome-Spends left _ (ground arith))
      ]

  audit_repo-Spends :
      (repo_ref : String) (left : Option ℕ) (h : History)
      → Spends whole left (audit_repo ports label_prefix check_signed check_sbom repo_ref left h)
  unfolding audit_repo
  audit_repo-Spends repo_ref left h = elim (Bool-cases (is_spent left)) [
    | inl e ↦ rw e (Spends-nothing left h)
    | inr e ↦ rw e (
        Spends-bind whole left _ _ h (λ tags k.
          for_each_with-Spends whole (audit_tag ports label_prefix check_signed check_sbom repo_ref)
            (audit_tag-Spends repo_ref) tags left k))
  ]

  with_session :
      (logged_in now_in : List String) (left : Option ℕ)
      (o : Result (List CoverageOutcome × Option ℕ) × History)
      → Spends whole left o
      → Spends of_session (logged_in, left) (continue_with (λ r. pure (r.0, (now_in, r.1))) o)
  unfolding continue_with Spends
  with_session logged_in now_in left (ok (outcomes, rest), h) f = f
  with_session logged_in now_in left (raise exc, h) f = tt

  walked-Spends :
      (logged_in now_in repo_refs : List String) (left : Option ℕ) (h : History)
      → Spends of_session
          (logged_in, left)
          ((for_each_with (audit_repo ports label_prefix check_signed check_sbom) repo_refs left
              >>= λ r. pure (r.0, (now_in, r.1)))
            h)
  unfolding ◌>>=◌
  walked-Spends logged_in now_in repo_refs left h = with_session logged_in now_in left _ (
      for_each_with-Spends whole (audit_repo ports label_prefix check_signed check_sbom)
        audit_repo-Spends repo_refs left h)

  session-Spends_nothing :
      (logged_in : List String) (left : Option ℕ) (h : History)
      → Spends {B = CoverageOutcome} of_session (logged_in, left) (ok ([], (logged_in, left)), h)
  unfolding Spends
  session-Spends_nothing logged_in left h = Fits-nil CoverageOutcome left

  audit_registry-Spends :
      (cfg : RegistryConfig) (s : List String × Option ℕ) (h : History)
      → Spends of_session s (audit_registry ports label_prefix check_signed check_sbom cfg s h)
  unfolding audit_registry
  audit_registry-Spends cfg (logged_in, left) h = elim (Bool-cases (is_spent left)) [
    | inl e ↦ rw e (session-Spends_nothing logged_in left h)
    | inr e ↦ rw e (
        Spends-bind of_session (logged_in, left) _ _ h
          (λ now_in k.
            Spends-bind of_session (logged_in, left) _ _ k
              (λ repo_refs l. walked-Spends logged_in now_in repo_refs left l)))
  ]

  within :
      (n : ℕ) (targets : List RegistryConfig) (report : CoverageReport)
      (o : Result (List CoverageOutcome × (List String × Option ℕ)) × History)
      → Spends of_session ([], some n) o
      → (continue_with (λ r. pure (report_on targets r.0)) o).0 ≡ ok report
      → length report.outcomes ≤ n
  unfolding continue_with Spends
  within n targets report (ok (outcomes, (now_in, none)), h) f e = absurd f
  within n targets report (ok (outcomes, (now_in, some k)), h) f e =
      let same : report_on targets outcomes ≡ report = cc in
      subst (λ r. length r.outcomes ≤ n) same (omega (arith, f))
  within n targets report (raise exc, h) f e = cc

  -- An audit with a limit reports on at most so many images.
  pub audit_coverage_limit :
      (roster : Roster) (only_registry : Option String) (limit : ℕ) (h : History)
      {report : CoverageReport}
      → (audit_coverage ports label_prefix check_signed check_sbom roster only_registry
          (some limit)
          h).0
        ≡ ok report
      → length report.outcomes ≤ limit
  unfolding audit_coverage ◌>>=◌
  audit_coverage_limit roster only_registry limit h {report} e =
      elim (Result-cases (targets_of only_registry roster)) [
        | inl (targets, found) ↦
            within limit targets report _
              (for_each_with-Spends of_session
                (audit_registry ports label_prefix check_signed check_sbom) audit_registry-Spends
                targets ([], some limit) h)
              (rw found at e)
        | inr (exc, failed) ↦ cc (rw failed at e)
      ]
