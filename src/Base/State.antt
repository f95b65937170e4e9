-- ===== src/Base/State.antt =====
-- Calls that change state and may fail: an error does not undo what was written before it.
use pelagos.Base.Errors.{Result, ok, err, panic}
use mathlib.Core.Option.{Option, some}
use mathlib.Core.Path.{◌≡◌, refl}

abbrev pub Act : Type 0 → Type 0 → Type 0
Act S A = S → Result A × S

abbrev pub continue : {S A B : Type 0} → Result A × S → (A → Act S B) → Result B × S
continue (ok a, s) f = f a s
continue (err e, s) f = (err e, s)
continue (panic, s) f = (panic, s)

infixl 5 ◌>>=◌ ◌>>◌
abbrev pub ◌>>=◌ : {S A B : Type 0} → Act S A → (A → Act S B) → Act S B
◌>>=◌ m f s = continue (m s) f

abbrev pub ◌>>◌ : {S B : Type 0} → Act S (Unit {0}) → Act S B → Act S B
m >> k = m >>= λ _. k

abbrev pub pure : {S A : Type 0} → A → Act S A
pure a s = (ok a, s)

-- A call that reads and writes nothing of the state.
abbrev pub lift : {S A : Type 0} → Result A → Act S A
lift r s = (r, s)

abbrev pub get_state : {S : Type 0} → Act S S
get_state s = (ok s, s)

abbrev pub modify : {S : Type 0} → (S → S) → Act S (Unit {0})
modify f s = (ok tt, f s)

-- What a loop makes of a round: it goes on, or ends with the error; `none` is a loop that has run out
-- of fuel.
abbrev pub go_on :
    {S : Type 0}
    → (S → Option (Result (Unit {0}) × S))
    → Result (Unit {0}) × S
    → Option (Result (Unit {0}) × S)
go_on again (ok _, s) = again s
go_on again (err e, s) = some (err e, s)
go_on again (panic, s) = some (panic, s)

-- A chain of calls that ends well began well.
pub continue-ok :
    {S A B : Type 0} (m : Result A × S) (f : A → Act S B) (b : B)
    → (continue m f).0 ≡ ok b
    → (a : A) × (m.0 ≡ ok a)
continue-ok (ok a, s) f b h = (a, refl)
continue-ok (err e, s) f b h = cc h
continue-ok (panic, s) f b h = cc h
