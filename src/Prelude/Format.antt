-- ===== src/Prelude/Format.antt =====
-- Formatted texts and errors of Go. A text keeps the format string and the arguments of the call
-- that makes it (fmt.Sprintf, fmt.Errorf), which the format's verbs turn into characters.
use Prim.Native.String.{String}
use mathlib.Core.Bool.{Bool, true, false}
use mathlib.Core.List.{List}
use kubectl_safe_rollout.Prelude.Int.{ℤ}

pub data Arg : Type 0 where
  str : String → Arg
  num : ℤ → Arg

pub data Text : Type 0 where
  plain : String → Text
  sprintf : String → List Arg → Text
  -- A format whose last verb (%v, %w or %s) is given a text.
  wrapping : String → List Arg → Text → Text
  append : Text → Text → Text

-- An error of the API server, with what the predicates of apierrors answer on it.
pub record ApiError : Type 0 where
  pub message : String
  pub is_not_found : Bool
  pub is_resource_expired : Bool
  pub is_gone : Bool

pub data Error : Type 0 where
  api : ApiError → Error
  errorf : Text → Error
  -- fmt.Errorf with a last verb %w.
  wrap : String → List Arg → Error → Error
  -- ctx.Err(): the context was cancelled, or its deadline passed.
  canceled : Error
  deadline_exceeded : Error
  -- A value of errors.New that is compared by errors.Is.
  sentinel : String → Error

-- err.Error()
abbrev pub error_text : Error → Text
error_text (api e) = plain e.message
error_text (errorf t) = t
error_text (wrap f args e) = wrapping f args (error_text e)
error_text canceled = plain "context canceled"
error_text deadline_exceeded = plain "context deadline exceeded"
error_text (sentinel s) = plain s

-- errors.Is(err, context.DeadlineExceeded)
abbrev pub is_deadline_exceeded : Error → Bool
is_deadline_exceeded deadline_exceeded = true
is_deadline_exceeded (wrap f args e) = is_deadline_exceeded e
is_deadline_exceeded _ = false

-- apierrors.IsNotFound(err)
abbrev pub is_not_found : Error → Bool
is_not_found (api e) = e.is_not_found
is_not_found (wrap f args e) = is_not_found e
is_not_found _ = false

-- A Go call that returns a value or an error.
pub data Fallible {ℓ} (A : Type ℓ) : Type ℓ where
  ok : A → Fallible A
  err : Error → Fallible A

infixl 5 ◌>>=◌
abbrev pub ◌>>=◌ {ℓ κ} : {A : Type ℓ} {B : Type κ} → Fallible A → (A → Fallible B) → Fallible B
ok a >>= f = f a
err e >>= f = err e
