-- ===== src/Outcome.antt =====
-- What a call of the C++ code comes to: a value, an exception of reply.h, or undefined behaviour.
pub mod Caught
use qbm_redis.Base.{◌≡◌, refl, Bool, true, false, Bytes}

-- The exceptions that the code throws, with their text `what()`: `Error` of reply.h, its subclass
-- `ProtoError`, the subclass `ParseError` of that one, and `std::runtime_error`.
pub data Exception : Type 0 where
  error proto_error parse_error runtime_error : Bytes → Exception

abbrev pub what : Exception → Bytes
what (error m) = m
what (proto_error m) = m
what (parse_error m) = m
what (runtime_error m) = m

-- `fault`: the code reads through a null pointer or takes the front of an empty queue.
pub data Outcome {ℓ} (A : Type ℓ) : Type ℓ where
  ok : A → Outcome A
  throw : Exception → Outcome A
  fault : Outcome A

infixl 5 ◌>>=◌ ◌>>◌
abbrev pub ◌>>=◌ {ℓ κ} : {A : Type ℓ} {B : Type κ} → Outcome A → (A → Outcome B) → Outcome B
ok a >>= f = f a
throw e >>= f = throw e
fault >>= f = fault

abbrev pub ◌>>◌ {ℓ} : {B : Type ℓ} → Outcome (Unit {0}) → Outcome B → Outcome B
m >> k = m >>= λ _. k

-- `if (b) throw e;`
abbrev pub throw_if : Bool → Exception → Outcome (Unit {0})
throw_if true e = throw e
throw_if false e = ok tt

-- `assert(b)`
abbrev pub assert : Bool → Outcome (Unit {0})
assert true = ok tt
assert false = fault

-- A value, or an exception that `catch (ProtoError const &)` takes.
abbrev pub IsCaught {ℓ} : {A : Type ℓ} → Outcome A → Type 0
IsCaught (ok a) = Unit
IsCaught (throw (proto_error m)) = Unit
IsCaught (throw (parse_error m)) = Unit
IsCaught _ = ⊥
