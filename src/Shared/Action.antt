-- ===== src/Shared/Action.antt =====
-- Async methods that talk to an external server and may fail. What the server did before an error
-- stays done, so its state comes back beside the error too.
use zorch.Prelude.{String, ◌≡◌, refl, arith}
use zorch.Shared.Errors.{Result, ok, err, Reply, got, AppError, map_err}

abbrev pub Action {ℓ} : Type ℓ → Type ℓ → Type ℓ
Action Server A = Server → Result A × Server

module _ {ℓ} {Server A : Type ℓ} where
  -- A command of the server; the text of its error is wrapped.
  abbrev pub call : (String → AppError) → (Server → Reply A × Server) → Action Server A
  call wrap command server = let (reply, after) = command server in (map_err wrap reply, after)

  abbrev pub lift : Result A → Action Server A
  lift result server = (result, server)

  abbrev pub raise : AppError → Action Server A
  raise error = lift (err error)

  abbrev pub pure : A → Action Server A
  pure value = lift (ok value)

module _ {ℓ} {Server A B : Type ℓ} where
  abbrev pub continue : Result A → (A → Action Server B) → Action Server B
  continue (err error) next server = (err error, server)
  continue (ok value) next server = next value server

  infixl 10 ◌>>=◌ ◌>>◌
  abbrev pub ◌>>=◌ : Action Server A → (A → Action Server B) → Action Server B
  ◌>>=◌ first next server = let (result, after) = first server in continue result next after

  abbrev pub ◌>>◌ : Action Server A → Action Server B → Action Server B
  first >> second = first >>= λ _. second

  continue-eq-ok :
      (r : Result A) (f : A → Action Server B) (s : Server) {b : B} {t : Server}
      → continue r f s ≡ (ok b, t)
      → (a : A) × (r ≡ ok a) × (f a s ≡ (ok b, t))
  continue-eq-ok (ok a) f s h = (a, refl, h)
  continue-eq-ok (err e) f s h = ground arith

  -- An action that ends well ran each of its parts to a good end.
  pub bind-eq-ok :
      (m : Action Server A) (f : A → Action Server B) (s : Server) {b : B} {t : Server}
      → (m >>= f) s ≡ (ok b, t)
      → (a : A) × ((m s).0 ≡ ok a) × (f a (m s).1 ≡ (ok b, t))
  bind-eq-ok m f s h = continue-eq-ok (m s).0 f (m s).1 h

module _ {ℓ} {Server A B C : Type ℓ} where
  continue_assoc :
      (r : Result A) (f : A → Action Server B) (g : B → Action Server C) (s : Server)
      → (continue r f >>= g) s ≡ continue r (λ a. f a >>= g) s
  continue_assoc (ok a) f g s = refl
  continue_assoc (err e) f g s = refl

  pub bind_assoc :
      (m : Action Server A) (f : A → Action Server B) (g : B → Action Server C) (s : Server)
      → ((m >>= f) >>= g) s ≡ (m >>= λ a. f a >>= g) s
  bind_assoc m f g s = continue_assoc (m s).0 f g (m s).1

module _ {ℓ} {A : Type ℓ} where
  pub map_err-eq-ok :
      (wrap : String → AppError) (r : Reply A) {a : A} → map_err wrap r ≡ ok a → r ≡ got a
  map_err-eq-ok wrap r h = ground arith
