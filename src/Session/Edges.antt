-- ===== src/Session/Edges.antt =====
-- The ports that a reconcile run writes by: the rest of knock/ports/registry.py,
-- knock/ports/image_builder.py, attestor.py and sbom.py. The reporter of knock/ports/reporter.py
-- only logs: its calls are recorded and return. What `generate` is given of the destination's settings
-- is left out.
use houba.Common.{String, Option, List, [], ◌∷◌}
use houba.Common.Dict.{Dict}
use houba.Attestation.{Statement}
use houba.Errors.{ErrorClass, Result, ok, raise}
use houba.Verify.{VerifiedPredicate}
use houba.Session.{
  Call, History, Io, Done, pure, perform, ◌>>=◌, Referrer, NewReferrer, BuildRequest, for_each,
}

pub record SbomDocument : Type 0 where
  pub format : String
  pub media_type : String
  pub content : String
  pub tool_version : String

pub record Edges : Type 0 where
  pub list_all_referrers : History → String → Result (List Referrer)
  pub copy : History → String → String → Result Done
  pub annotate : History → String → Dict String String → Option String → Result String
  pub put_referrer : History → String → NewReferrer → Result String
  pub put_artifact :
      History → String → String → String → String → Dict String String → Result String
  pub build_and_push : History → BuildRequest → Result Done
  pub generate : History → String → List String → Result (List SbomDocument)
  pub attest : History → String → Statement → Result String
  pub verify : History → String → String → Result (List VerifiedPredicate)

-- A call of the reporter.
abbrev pub report : Call → Io Done
report call = perform call (λ h. ok tt)

unfoldable pub rescued {ℓ} :
    {A : Type ℓ} → (ErrorClass → Io A) → Result A × History → Result A × History
rescued handler (ok value, h) = (ok value, h)
rescued handler (raise exc, h) = handler exc h

-- `try: … except Exception as exc: …`
unfoldable pub rescue {ℓ} : {A : Type ℓ} → Io A → (ErrorClass → Io A) → Io A
unfolding rescued
rescue body handler h = rescued handler (body h)

-- A body whose exception is kept as a value, for a handler that needs the state of the loop.
unfoldable pub attempt {ℓ} : {A : Type ℓ} → Io A → Io (Result A)
attempt body h = (ok (body h).0, (body h).1)

-- `_run_stage` without an executor: the results in the order of the items. With one, the items
-- run at the same time and the results are put in this order.
unfoldable pub run_stage {ℓ κ} : {A : Type ℓ} {B : Type κ} → (A → Io B) → List A → Io (List B)
unfolding for_each ◌>>=◌
run_stage fn items = for_each (λ item. do op ← fn item; pure (op ∷ [])) items
