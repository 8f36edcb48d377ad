-- ===== src/Lifecycle/Poll/Transience.antt =====
-- The exceptions that count as transient faults of the API (thunder_sandbox/_common/exceptions.py), as
-- the polling loops of thunder_sandbox/asynchronous/sandbox.py name them.
use thunder_sandbox.Prelude.{
  ◌≡◌, refl, sym, ap, ◌∙◌, true, none, some, Bool-cases, inl, inr, true≢false,
}
use thunder_sandbox.Common.Errors.{Error, ErrorKind, ThunderError, thunder_error}
use thunder_sandbox.Lifecycle.Poll.{is_connection_kind, transient}

-- `ConnectionError`, and `RetryableError` with its subclasses
pub data IsTransientKind : ErrorKind → Type 0 where
  no_connection : IsTransientKind ErrorKind.connection
  may_be_retried : IsTransientKind ErrorKind.retryable
  no_capacity : IsTransientKind ErrorKind.capacity
  too_many_requests : IsTransientKind ErrorKind.rate_limit
  not_available : IsTransientKind ErrorKind.service_unavailable

abbrev pub IsTransient : Error → Type 0
IsTransient e = (t : ThunderError) × (e ≡ thunder_error t) × IsTransientKind t.kind

is_connection_kind-IsTransientKind :
    (k : ErrorKind) → is_connection_kind k ≡ true → IsTransientKind k
is_connection_kind-IsTransientKind ErrorKind.connection = λ h. IsTransientKind.no_connection
is_connection_kind-IsTransientKind ErrorKind.retryable = λ h. IsTransientKind.may_be_retried
is_connection_kind-IsTransientKind ErrorKind.capacity = λ h. IsTransientKind.no_capacity
is_connection_kind-IsTransientKind ErrorKind.rate_limit = λ h. IsTransientKind.too_many_requests
is_connection_kind-IsTransientKind ErrorKind.service_unavailable =
    λ h. IsTransientKind.not_available
is_connection_kind-IsTransientKind k = λ h. absurd (true≢false (sym h))

connection_of : (k : ErrorKind) → IsTransientKind k → is_connection_kind k ≡ true
connection_of _ IsTransientKind.no_connection = refl
connection_of _ IsTransientKind.may_be_retried = refl
connection_of _ IsTransientKind.no_capacity = refl
connection_of _ IsTransientKind.too_many_requests = refl
connection_of _ IsTransientKind.not_available = refl

pub transient-IsTransient : (e : Error) (t : ThunderError) → transient e ≡ some t → IsTransient e
transient-IsTransient (thunder_error u) t = elim (Bool-cases (is_connection_kind u.kind)) [
  | inl q ↦ λ h. (u, refl, is_connection_kind-IsTransientKind u.kind q)
  | inr q ↦ rw (transient, q) (λ h. absurd (cc))
]
transient-IsTransient e t = λ h. absurd (cc)

pub none-IsTransient : (e : Error) → transient e ≡ none → IsTransient e → ⊥
none-IsTransient e h (t, q, k) =
    let known : transient (thunder_error t) ≡ some t =
      rw (transient, connection_of t.kind k) refl in
    let same : some t ≡ none = sym known ∙ (sym (ap transient q) ∙ h) in cc
