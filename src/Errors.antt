-- ===== src/Errors.antt =====
-- knock/errors.py: the exception classes, `exit_code_for`, and a call that may raise.
-- `value_error`, `key_error` and `other_error` stand for Python's own exceptions, which are not
-- rooted in `KnockError`. The texts of messages are not modelled.
pub mod Codes
use houba.Common.{ℕ, Option, none, some, List, [], ◌∷◌, Bool, true, false, ◌≡◌, refl, ◌⊎◌, inl, inr}

pub data ErrorClass : Type 0 where
  knock_error domain_error archive_error archive_layout_error artifact_annotation_error
        artifact_blob_path_error policy_validation_error scan_report_error unknown_format_error
        source_path_error adapter_error archive_source_read_error archive_size_mismatch_error
        archive_destination_write_error regctl_error buildkit_error cosign_error syft_error
        usage_oracle_error source_error source_revision_mismatch_error queue_error
        queue_unavailable_error config_error internal_error value_error key_error other_error :
      ErrorClass

abbrev domain_mro : List ErrorClass
domain_mro = domain_error ∷ knock_error ∷ []

abbrev adapter_mro : List ErrorClass
adapter_mro = adapter_error ∷ knock_error ∷ []

-- `type(exc).__mro__`, without the classes above `KnockError` (they have no exit code).
unfoldable pub mro : ErrorClass → List ErrorClass
mro knock_error = knock_error ∷ []
mro domain_error = domain_mro
mro archive_error = archive_error ∷ domain_mro
mro archive_layout_error = archive_layout_error ∷ archive_error ∷ domain_mro
mro artifact_annotation_error = artifact_annotation_error ∷ domain_mro
mro artifact_blob_path_error = artifact_blob_path_error ∷ domain_mro
mro policy_validation_error = policy_validation_error ∷ domain_mro
mro scan_report_error = scan_report_error ∷ domain_mro
mro unknown_format_error = unknown_format_error ∷ domain_mro
mro source_path_error = source_path_error ∷ domain_mro
mro adapter_error = adapter_mro
mro archive_source_read_error = archive_source_read_error ∷ adapter_mro
mro archive_size_mismatch_error = archive_size_mismatch_error ∷ adapter_mro
mro archive_destination_write_error = archive_destination_write_error ∷ adapter_mro
mro regctl_error = regctl_error ∷ adapter_mro
mro buildkit_error = buildkit_error ∷ adapter_mro
mro cosign_error = cosign_error ∷ adapter_mro
mro syft_error = syft_error ∷ adapter_mro
mro usage_oracle_error = usage_oracle_error ∷ adapter_mro
mro source_error = source_error ∷ adapter_mro
mro source_revision_mismatch_error = source_revision_mismatch_error ∷ adapter_mro
mro queue_error = queue_error ∷ adapter_mro
mro queue_unavailable_error = queue_unavailable_error ∷ queue_error ∷ adapter_mro
mro config_error = config_error ∷ knock_error ∷ []
mro internal_error = internal_error ∷ knock_error ∷ []
mro value_error = value_error ∷ []
mro key_error = key_error ∷ []
mro other_error = other_error ∷ []

-- `_EXIT_CODES.get(klass)`
unfoldable pub exit_codes : ErrorClass → Option ℕ
exit_codes domain_error = some 1
exit_codes adapter_error = some 2
exit_codes config_error = some 3
exit_codes internal_error = some 4
exit_codes queue_unavailable_error = some 5
exit_codes _ = none

-- The loop of `exit_code_for` over the method resolution order.
first_code : List ErrorClass → ℕ
first_code [] = 4
first_code (klass ∷ rest) = elim (exit_codes klass) [ none ↦ first_code rest | some code ↦ code ]

unfoldable pub exit_code_for : ErrorClass → ℕ
unfolding first_code mro exit_codes
exit_code_for exc = first_code (mro exc)

-- `ErrorInfo` of ports/reporter.py, without the text of the message
pub record ErrorInfo : Type 0 where
  pub type : ErrorClass
  pub exit_code : ℕ

-- `_err` of the use cases
abbrev pub error_of : ErrorClass → ErrorInfo
error_of exc = record { type = exc; exit_code = exit_code_for exc }

-- What a call does: it returns a value or raises an exception.
pub data Result {ℓ} (A : Type ℓ) : Type ℓ where
  ok : A → Result A
  raise : ErrorClass → Result A

abbrev pub is_ok {ℓ} : {A : Type ℓ} → Result A → Bool
is_ok (ok value) = true
is_ok (raise exc) = false

-- The rest of a body runs only if the call before it returned.
infixl 10 ◌>>=◌
abbrev pub ◌>>=◌ {ℓ κ} : {A : Type ℓ} {B : Type κ} → Result A → (A → Result B) → Result B
◌>>=◌ call rest = elim call [ ok value ↦ rest value | raise exc ↦ raise exc ]

pub Result-cases {ℓ} :
    {A : Type ℓ} (r : Result A)
    → ((value : A) × (r ≡ ok value)) ⊎ ((exc : ErrorClass) × (r ≡ raise exc))
Result-cases (ok value) = inl (value, refl)
Result-cases (raise exc) = inr (exc, refl)

module _ {ℓ κ} {A : Type ℓ} {B : Type κ} where
  -- A body that returned: its first call returned too.
  pub bind_inversion :
      (call : Result A) (rest : A → Result B) {result : B}
      → call >>= rest ≡ ok result
      → (value : A) × (call ≡ ok value) × (rest value ≡ ok result)
  bind_inversion (raise exc) rest h = cc
  bind_inversion (ok value) rest h = (value, refl, h)

  pub is_ok-bind :
      (call : Result A) (rest : A → Result B)
      → ((value : A) → is_ok (rest value) ≡ true)
      → is_ok (call >>= rest) ≡ is_ok call
  is_ok-bind (raise exc) rest h = refl
  is_ok-bind (ok value) rest h = h value
