-- ===== src/Outcome/Caught.antt =====
-- `IsCaught`, and a predicate on the value with it, of each way to build an outcome.
use qbm_redis.Base.{Bool, true, false, if◌then◌else◌}
use qbm_redis.Outcome.{
  Exception, proto_error, parse_error, Outcome, ok, throw, fault, IsCaught, ◌>>=◌, ◌>>◌, throw_if,
}

-- A bind is caught if its parts are.
pub >>=-IsCaught {ℓ κ} :
    {A : Type ℓ} {B : Type κ} (m : Outcome A) (f : A → Outcome B)
    → IsCaught m
    → ((a : A) → IsCaught (f a))
    → IsCaught (m >>= f)
>>=-IsCaught (ok a) f c k = k a
>>=-IsCaught (throw (proto_error e)) f c k = tt
>>=-IsCaught (throw (parse_error e)) f c k = tt
>>=-IsCaught (throw (Exception.error e)) f c k = absurd c
>>=-IsCaught (throw (Exception.runtime_error e)) f c k = absurd c
>>=-IsCaught fault f c k = absurd c

pub if-IsCaught {ℓ} :
    {A : Type ℓ} (b : Bool) (m n : Outcome A)
    → IsCaught m
    → IsCaught n
    → IsCaught (if b then m else n)
if-IsCaught true m n cm cn = cm
if-IsCaught false m n cm cn = cn

-- A guard that throws a `ProtoError`.
pub throw_if-IsCaught {ℓ} :
    {A : Type ℓ} (b : Bool) (e : Exception) (m : Outcome A)
    → IsCaught {A = A} (throw e)
    → IsCaught m
    → IsCaught (throw_if b e >> m)
throw_if-IsCaught true (proto_error e) m ce cm = tt
throw_if-IsCaught true (parse_error e) m ce cm = tt
throw_if-IsCaught true (Exception.error e) m ce cm = absurd ce
throw_if-IsCaught true (Exception.runtime_error e) m ce cm = absurd ce
throw_if-IsCaught false e m ce cm = cm

-- A value of which `P` holds, or an exception that `catch (ProtoError const &)` takes.
unfoldable pub IsSafe {ℓ} : {A : Type ℓ} → (A → Type 0) → Outcome A → Type 0
IsSafe P (ok a) = P a
IsSafe P (throw (proto_error m)) = Unit
IsSafe P (throw (parse_error m)) = Unit
IsSafe P _ = ⊥

pub ok-IsSafe {ℓ} : {A : Type ℓ} (P : A → Type 0) (a : A) → P a → IsSafe P (ok a)
unfolding IsSafe
ok-IsSafe P a c = c

pub >>=-IsSafe {ℓ κ} :
    {A : Type ℓ} {B : Type κ} (P : A → Type 0) (Q : B → Type 0) (m : Outcome A) (f : A → Outcome B)
    → IsSafe P m
    → ((a : A) → P a → IsSafe Q (f a))
    → IsSafe Q (m >>= f)
unfolding IsSafe
>>=-IsSafe P Q (ok a) f c k = k a c
>>=-IsSafe P Q (throw (proto_error e)) f c k = tt
>>=-IsSafe P Q (throw (parse_error e)) f c k = tt
>>=-IsSafe P Q (throw (Exception.error e)) f c k = absurd c
>>=-IsSafe P Q (throw (Exception.runtime_error e)) f c k = absurd c
>>=-IsSafe P Q fault f c k = absurd c

pub guard-IsSafe :
    (b : Bool) (e : Exception)
    → IsCaught {A = Unit {0}} (throw e)
    → IsSafe (λ u. Unit {0}) (throw_if b e)
unfolding IsSafe
guard-IsSafe true (proto_error e) c = tt
guard-IsSafe true (parse_error e) c = tt
guard-IsSafe true (Exception.error e) c = absurd c
guard-IsSafe true (Exception.runtime_error e) c = absurd c
guard-IsSafe false e c = tt

-- Without a predicate it is `IsCaught`, both ways.
pub IsCaught-IsSafe {ℓ} : {A : Type ℓ} (m : Outcome A) → IsCaught m → IsSafe (λ a. Unit {0}) m
unfolding IsSafe
IsCaught-IsSafe (ok a) c = tt
IsCaught-IsSafe (throw (proto_error e)) c = tt
IsCaught-IsSafe (throw (parse_error e)) c = tt
IsCaught-IsSafe (throw (Exception.error e)) c = absurd c
IsCaught-IsSafe (throw (Exception.runtime_error e)) c = absurd c
IsCaught-IsSafe fault c = absurd c

pub IsSafe-IsCaught {ℓ} : {A : Type ℓ} (P : A → Type 0) (m : Outcome A) → IsSafe P m → IsCaught m
unfolding IsSafe
IsSafe-IsCaught P (ok a) c = tt
IsSafe-IsCaught P (throw (proto_error e)) c = tt
IsSafe-IsCaught P (throw (parse_error e)) c = tt
IsSafe-IsCaught P (throw (Exception.error e)) c = absurd c
IsSafe-IsCaught P (throw (Exception.runtime_error e)) c = absurd c
IsSafe-IsCaught P fault c = absurd c
