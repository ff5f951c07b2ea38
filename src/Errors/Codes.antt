-- ===== src/Errors/Codes.antt =====
-- Which exit code an exception gets.
use houba.Common.{◌≤◌, ◌≡◌, refl, Bool, true, false, any, arith, if◌then◌else◌}
use houba.Errors.{
  ErrorClass, knock_error, domain_error, adapter_error, config_error, queue_unavailable_error, mro,
  exit_code_for,
}

is_class : ErrorClass → ErrorClass → Bool
is_class domain_error domain_error = true
is_class adapter_error adapter_error = true
is_class config_error config_error = true
is_class queue_unavailable_error queue_unavailable_error = true
is_class knock_error knock_error = true
is_class _ _ = false

-- `isinstance(exc, klass)`, for the branch roots and `QueueUnavailableError`.
unfoldable pub is_a : ErrorClass → ErrorClass → Bool
unfolding is_class mro
is_a klass exc = any (λ c. is_class c klass) (mro exc)

-- The exit code of every exception follows from the branch that it descends from: 5 for an
-- unreachable queue, else 1 for a domain error, 2 for an adapter error, 3 for a configuration
-- error, and 4 for all that is left, whatever the order in which the table is written.
pub exit_code_for-by_branch :
    (exc : ErrorClass)
    → exit_code_for exc ≡ (
        if is_a queue_unavailable_error exc
        then 5
        else if is_a domain_error exc
        then 1
        else if is_a adapter_error exc
        then 2
        else if is_a config_error exc
        then 3
        else 4)
unfolding exit_code_for is_a
exit_code_for-by_branch knock_error = refl
exit_code_for-by_branch _ = refl

-- No exception exits with 0, so a failed run never looks like a success.
pub exit_code_for-bounds : (exc : ErrorClass) → (1 ≤ exit_code_for exc) × (exit_code_for exc ≤ 5)
unfolding exit_code_for
exit_code_for-bounds knock_error = omega arith
exit_code_for-bounds _ = omega arith
