-- ===== src/Daemon/Access.antt =====
-- Whom the daemon serves.
use pelagos.Base.{
  length-zero, ℕ, ◌==◌, ◌≡◌, refl, ap, sym, ◌∙◌, List, [], ◌++◌, true, false, not, ◌&&◌, ok, length,
  take, drop, take-append, drop-append, take-append-drop, Bool-cases, inl, inr, ◌⊎◌,
}
use pelagos.Base.Maps.{bytes_equal, bytes_equal_iff, bytes_equal_refl}
use pelagos.Base.State.{Act}
use pelagos.Base.Text.{codes}
use pelagos.Daemon.{Request, bearer, auth_middleware}
use pelagos.Http.{Reply, refused, status_forbidden, status_unauthorized}
use pelagos.Transport.TorControl.{has_prefix}

-- A request of no page or of one without an origin, which carries the token.
abbrev pub Authorised : List ℕ → Request → Type 0
Authorised token r =
    ((r.origin ≡ []) ⊎ (r.origin ≡ codes "null")) × (r.authorization ≡ bearer ++ token)

-- What an authorised header begins with, and what follows.
marked_front : (token : List ℕ) → bytes_equal (take (length bearer) (bearer ++ token)) bearer ≡ true
marked_front token =
    ap (λ (f : List ℕ). bytes_equal f bearer) (take-append bearer token (length bearer) refl)
    ∙ bytes_equal_refl bearer

marked_rest : (token : List ℕ) → bytes_equal (drop (length bearer) (bearer ++ token)) token ≡ true
marked_rest token =
    ap (λ (f : List ℕ). bytes_equal f token) (drop-append bearer token (length bearer) refl)
    ∙ bytes_equal_refl token

from_page :
    (token : List ℕ) (r : Request)
    → (length r.origin == 0) ≡ false
    → bytes_equal r.origin (codes "null") ≡ false
    → ¬ Authorised token r
from_page token r given page (inl blank, _) = cc (ap (λ (o : List ℕ). length o == 0) blank, given)
from_page token r given page (inr opaque, _) = cc (
  ap (λ (o : List ℕ). bytes_equal o (codes "null")) opaque,
  page,
  bytes_equal_refl (codes "null"),
)

module _ {S A : Type 0} (token : List ℕ) (next : Request → Act S (Reply A)) (r : Request)
    (x : S) where
  abbrev pub Refused : Type 0
  Refused =
      (auth_middleware token next r x ≡ (ok (refused status_forbidden), x))
      ⊎ (auth_middleware token next r x ≡ (ok (refused status_unauthorized), x))

  -- The handler runs on an authorised request; any other is refused, and changes nothing.
  abbrev pub Guarded : Type 0
  Guarded =
      (Authorised token r × (auth_middleware token next r x ≡ next r x))
      ⊎ ((¬ Authorised token r) × Refused)

  by_token :
      (r.origin ≡ []) ⊎ (r.origin ≡ codes "null")
      → (not (length r.origin == 0) && not (bytes_equal r.origin (codes "null"))) ≡ false
      → Guarded
  unfolding auth_middleware has_prefix
  by_token local o = elim (Bool-cases (bytes_equal (take (length bearer) r.authorization) bearer)) [
    | inr unmarked ↦ inr (
      λ a. cc (
        ap (λ (h : List ℕ). bytes_equal (take (length bearer) h) bearer) a.1,
        marked_front token,
        unmarked,
      ),
      inr (rw (o, unmarked)),
    )
    | inl marked ↦ elim (Bool-cases (bytes_equal (drop (length bearer) r.authorization) token)) [
      | inr wrong ↦ inr (
        λ a. cc (
          ap (λ (h : List ℕ). bytes_equal (drop (length bearer) h) token) a.1,
          marked_rest token,
          wrong,
        ),
        inr (rw (o, marked, wrong)),
      )
      | inl right ↦
          let front = (bytes_equal_iff _ _).0 marked in
          let back = (bytes_equal_iff _ _).0 right in
          inl (
            (
              local,
              sym (take-append-drop (length bearer) r.authorization)
                  ∙ ap (λ (f : List ℕ). f ++ drop (length bearer) r.authorization) front
                  ∙ ap (◌++◌ bearer) back,
            ),
            rw (o, marked, right),
          )
    ]
  ]

  -- A handler behind the middleware is run exactly for the requests that carry the daemon's token and
  -- come from no web page, their origin being missing or `null`; any other request is refused with
  -- 401 or 403 and changes nothing.
  pub auth_middleware-guards : Guarded
  unfolding auth_middleware
  auth_middleware-guards = elim (Bool-cases (length r.origin == 0)) [
    | inl none_given ↦ by_token (inl (length-zero r.origin none_given)) (rw none_given)
    | inr given ↦ elim (Bool-cases (bytes_equal r.origin (codes "null"))) [
      | inl opaque ↦ by_token (inr ((bytes_equal_iff _ _).0 opaque)) (rw (given, opaque))
      | inr page ↦ inr (from_page token r given page, inl (rw (given, page)))
    ]
  ]
