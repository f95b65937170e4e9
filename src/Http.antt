-- ===== src/Http.antt =====
-- What the HTTP handlers of pkg/daemon and pkg/client share: a reply, and a step whose error ends the
-- handler with a status.
use pelagos.Base.{ℕ, List, Bool, Result, ok, err, panic}
use pelagos.Base.Maps.{bytes_equal}
use pelagos.Base.State.{Act}

-- `http.Error` with a status, or a body in JSON, which is a value here.
pub data Reply (A : Type 0) : Type 0 where
  refused : ℕ → Reply A
  answered : A → Reply A

-- The status codes of net/http that the handlers use.
abbrev pub status_bad_request : ℕ
status_bad_request = 400

abbrev pub status_unauthorized : ℕ
status_unauthorized = 401

abbrev pub status_forbidden : ℕ
status_forbidden = 403

abbrev pub status_method_not_allowed : ℕ
status_method_not_allowed = 405

abbrev pub status_internal_server_error : ℕ
status_internal_server_error = 500

abbrev pub refuse : {S A : Type 0} → ℕ → Act S (Reply A)
refuse status x = (ok (refused status), x)

abbrev pub answer : {S A : Type 0} → A → Act S (Reply A)
answer a x = (ok (answered a), x)

abbrev pub or_status :
    {S A B : Type 0} → ℕ → Result A × S → (A → Act S (Reply B)) → Result (Reply B) × S
or_status status (ok a, x) next = next a x
or_status status (err e, x) next = (ok (refused status), x)
or_status status (panic, x) next = (panic, x)

-- A call whose error is answered with a status.
abbrev pub attempt : {S A B : Type 0} → ℕ → Act S A → (A → Act S (Reply B)) → Act S (Reply B)
attempt status m next x = or_status status (m x) next

abbrev pub is_method : List ℕ → List ℕ → Bool
is_method = bytes_equal
