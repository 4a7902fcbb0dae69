-- ===== src/Commands/Arguments.antt =====
-- Arguments and results that several command classes share.
pub mod Laws
use qbm_redis.Base.{
  ℕ, Bool, true, false, not, List, [], ◌∷◌, ◌++◌, Option, none, some, Bytes, codes, is_empty,
}
use qbm_redis.Base.Int.{ℤ, pos, eqb_ℤ}
use qbm_redis.Decimal.{to_string}
use qbm_redis.Types.{ScoreMember}
use qbm_redis.Wire.{
  Arg, literal, number, str, pair, floating, nullopt, engaged, score_member, Args, end, arg,
}
use qbm_redis.Outcome.{Outcome}
use qbm_redis.Reply.{RedisReply}
use qbm_redis.Reply.Scalars.{parse_string}
use qbm_redis.Reply.Containers.{parse_optional}

-- `std::vector<std::string>` and `std::vector<std::pair<std::string, std::string>>` as arguments.
module _ {D : Type 0} where
  unfoldable pub string_args : List Bytes → Args D
  string_args [] = end
  string_args (s ∷ ss) = arg (str s) (string_args ss)

  unfoldable pub pair_args : List (Bytes × Bytes) → Args D
  pair_args [] = end
  pair_args ((k, v) ∷ es) = arg (pair (str k) (str v)) (pair_args es)

  -- `std::vector<score_member>` and `std::vector<double>`
  unfoldable pub member_args : List (ScoreMember D) → Args D
  member_args [] = end
  member_args (m ∷ ms) = arg (score_member m) (member_args ms)

  unfoldable pub floating_args : List D → Args D
  floating_args [] = end
  floating_args (x ∷ xs) = arg (floating x) (floating_args xs)

  -- `std::optional<std::string>`
  unfoldable pub optional_arg : Option Bytes → Arg D
  optional_arg none = nullopt
  optional_arg (some s) = engaged (str s)

module _ {D : Type 0} where
  -- Arguments of a call behind those of a parameter pack.
  unfoldable pub append_args : Args D → Args D → Args D
  append_args end bs = bs
  append_args (arg a ts) bs = arg a (append_args ts bs)

-- `if (b) args.push_back(…)`, and `if (o) args.insert(args.end(), {w, std::to_string(*o)})`
unfoldable pub push_if : Bool → List Bytes → List Bytes → List Bytes
push_if true ws args = args ++ ws
push_if false ws args = args

unfoldable pub insert_option : Bytes → Option ℤ → List Bytes → List Bytes
insert_option w none args = args
insert_option w (some n) args = args ++ w ∷ to_string n ∷ []

-- The last argument of a command that is sent with it or without it: an optional number, a text that
-- is not empty, a fixed word.
module _ {D : Type 0} where
  unfoldable pub number_args : Option ℤ → Args D
  number_args none = end
  number_args (some n) = arg (number n) end

  unfoldable pub nonempty_args : Bytes → Args D
  nonempty_args [] = end
  nonempty_args (c ∷ s) = arg (str (c ∷ s)) end

  unfoldable pub literal_args : Bool → Bytes → Args D
  literal_args true w = arg (literal w) end
  literal_args false w = end

-- The conversion of a `bool` to an integer.
unfoldable pub bit_of : Bool → ℤ
bit_of true = pos 1
bit_of false = pos 0

-- A fixed word of a command that is sent if `b` holds.
unfoldable pub flag : Bool → Bytes → Option Bytes
flag true w = some w
flag false w = none

-- The conversion of a `long long` to `bool`.
unfoldable pub to_bool : ℤ → Bool
unfolding eqb_ℤ
to_bool n = not (eqb_ℤ n (pos 0))

-- `std::optional<std::string>`
abbrev pub parse_optional_string : RedisReply → Outcome (Option Bytes)
parse_optional_string = parse_optional parse_string
