-- ===== src/Prelude/Outcome.antt =====
-- Python statements that change a state and may raise. What was written before an exception
-- stays written, so the state comes back beside the exception too.
pub mod Rules
use Prim.Native.String.{String}

-- `failure`: an `Exception`, with its text `str(exc)`. `interrupt`: a `BaseException` that is no
-- `Exception` (a `CancelledError` from elsewhere), with its `repr`. `deadline`: the
-- `CancelledError` that the innermost `asyncio.timeout` delivers when it expires.
pub data Raised : Type 0 where
  failure : String → Raised
  interrupt : String → Raised
  deadline : Raised

pub data Outcome {ℓ} (A : Type ℓ) : Type ℓ where
  return : A → Outcome A
  raise : Raised → Outcome A

abbrev pub Action {ℓ} : Type ℓ → Type ℓ → Type ℓ
Action S A = S → Outcome A × S

module _ {S A : Type 0} where
  abbrev pub pure : A → Action S A
  pure a s = (return a, s)

  abbrev pub throw : Raised → Action S A
  throw e s = (raise e, s)

  abbrev pub gets : (S → A) → Action S A
  gets f s = (return (f s), s)

  -- `try: body` / `except Exception as exc: handler(str(exc))`
  abbrev pub handle : (String → Action S A) → Outcome A × S → Outcome A × S
  handle handler (return a, s) = (return a, s)
  handle handler (raise (failure text), s) = handler text s
  handle handler (raise (interrupt repr), s) = (raise (interrupt repr), s)
  handle handler (raise deadline, s) = (raise deadline, s)

  abbrev pub try_except : Action S A → (String → Action S A) → Action S A
  try_except body handler s = handle handler (body s)

  -- The result of `try: … finally: cleanup`: what the cleanup raises replaces the body's result.
  abbrev pub keep : Outcome A → Outcome (Unit {0}) × S → Outcome A × S
  keep result (return _, s) = (result, s)
  keep result (raise e, s) = (raise e, s)

  abbrev pub try_finally : Action S A → Action S (Unit {0}) → Action S A
  try_finally body cleanup s = let (result, after) = body s in keep result (cleanup after)

abbrev pub modify : {S : Type 0} → (S → S) → Action S (Unit {0})
modify f s = (return tt, f s)

module _ {S A B : Type 0} where
  abbrev pub and_then : Outcome A → (A → Action S B) → Action S B
  and_then (return a) f s = f a s
  and_then (raise e) f s = (raise e, s)

  infixl 5 ◌>>=◌ ◌>>◌
  abbrev pub ◌>>=◌ : Action S A → (A → Action S B) → Action S B
  ◌>>=◌ m f s = let (result, after) = m s in and_then result f after

  abbrev pub ◌>>◌ : Action S A → Action S B → Action S B
  m >> n = m >>= λ _. n
