-- ===== src/Commands/Arguments/Laws.antt =====
-- How shared arguments count, and the words that they stand for.
use qbm_redis.Base.{
  append_assoc, ◌∙◌, sym, append-nil, not, is_empty, ◌++◌, ◌≡◌, refl, ap, Bool, true, false, List,
  [], ◌∷◌, Option, none, some, Bytes,
}
use qbm_redis.Base.Int.{ℤ}
use qbm_redis.Decimal.{to_string}
use qbm_redis.Types.{ScoreMember}
use qbm_redis.Floating.{Floating}
use qbm_redis.Wire.{redis_count, container, Args, end, arg}
use qbm_redis.Wire.Words.{words, words_of}
use qbm_redis.Wire.Counting.{IsUniform, EachCounts, AllUniform}
use qbm_redis.Commands.Arguments.{
  append_args, string_args, pair_args, member_args, floating_args, optional_arg, flag, push_if,
  insert_option, number_args, nonempty_args, literal_args,
}

-- Keys and values by turns.
unfoldable pub key_values : List (Bytes × Bytes) → List Bytes
key_values [] = []
key_values ((k, v) ∷ es) = k ∷ v ∷ key_values es

unfoldable pub option_words : Option Bytes → List Bytes
option_words none = []
option_words (some s) = s ∷ []

-- Words that are there if `b` holds, and a named number that may be missing.
unfoldable pub clause : Bool → List Bytes → List Bytes
clause true ws = ws
clause false ws = []

unfoldable pub named : Bytes → Option ℤ → List Bytes
named w none = []
named w (some n) = w ∷ to_string n ∷ []

unfoldable pub number_words : Option ℤ → List Bytes
number_words none = []
number_words (some n) = to_string n ∷ []

pub push_if-clause : (b : Bool) (ws args : List Bytes) → push_if b ws args ≡ args ++ clause b ws
unfolding push_if clause
push_if-clause true ws args = refl
push_if-clause false ws args = sym (append-nil args)

pub insert_option-named :
    (w : Bytes) (o : Option ℤ) (args : List Bytes) → insert_option w o args ≡ args ++ named w o
unfolding insert_option named
insert_option-named w none args = sym (append-nil args)
insert_option-named w (some n) args = refl

unfoldable pub when : Bool → Bytes → List Bytes
when true w = w ∷ []
when false w = []

pub flag-words : (b : Bool) (w : Bytes) → option_words (flag b w) ≡ when b w
unfolding flag option_words when
flag-words true w = refl
flag-words false w = refl

module _ {D : Type 0} ⦃F : Floating D⦄ where
  -- Scores and members by turns.
  unfoldable pub member_words : List (ScoreMember D) → List Bytes
  member_words [] = []
  member_words (m ∷ ms) = F.show m.score ∷ m.member ∷ member_words ms

  unfoldable pub floating_words : List D → List Bytes
  floating_words [] = []
  floating_words (x ∷ xs) = F.show x ∷ floating_words xs

module _ (D : Type 0) where
  pub string_args-counts : (ss : List Bytes) → EachCounts {D = D} 1 (string_args ss)
  unfolding string_args redis_count
  string_args-counts [] = tt
  string_args-counts (s ∷ ss) = (refl, tt, string_args-counts ss)

  pub string_list-IsUniform : (ss : List Bytes) → IsUniform {D = D} (container (string_args ss))
  unfolding string_args redis_count
  string_list-IsUniform [] = tt
  string_list-IsUniform (s ∷ ss) = (tt, string_args-counts ss)

  pub pair_args-counts : (es : List (Bytes × Bytes)) → EachCounts {D = D} 2 (pair_args es)
  unfolding pair_args redis_count
  pair_args-counts [] = tt
  pair_args-counts ((k, v) ∷ es) = (refl, (refl, tt, refl, tt), pair_args-counts es)

  member_args-counts : (ms : List (ScoreMember D)) → EachCounts {D = D} 2 (member_args ms)
  unfolding member_args redis_count
  member_args-counts [] = tt
  member_args-counts (m ∷ ms) = (refl, tt, member_args-counts ms)

  pub member_list-IsUniform :
      (ms : List (ScoreMember D)) → IsUniform {D = D} (container (member_args ms))
  unfolding member_args redis_count
  member_list-IsUniform [] = tt
  member_list-IsUniform (m ∷ ms) = (tt, member_args-counts ms)

  floating_args-counts : (xs : List D) → EachCounts {D = D} 1 (floating_args xs)
  unfolding floating_args redis_count
  floating_args-counts [] = tt
  floating_args-counts (x ∷ xs) = (refl, tt, floating_args-counts xs)

  pub floating_list-IsUniform : (xs : List D) → IsUniform {D = D} (container (floating_args xs))
  unfolding floating_args redis_count
  floating_list-IsUniform [] = tt
  floating_list-IsUniform (x ∷ xs) = (tt, floating_args-counts xs)

  pub optional_arg-IsUniform : (o : Option Bytes) → IsUniform {D = D} (optional_arg o)
  unfolding optional_arg
  optional_arg-IsUniform none = tt
  optional_arg-IsUniform (some s) = tt

  pub pair_list-IsUniform :
      (es : List (Bytes × Bytes)) → IsUniform {D = D} (container (pair_args es))
  unfolding pair_args redis_count
  pair_list-IsUniform [] = tt
  pair_list-IsUniform ((k, v) ∷ es) = ((refl, tt, refl, tt), pair_args-counts es)

  pub number_args-AllUniform : (o : Option ℤ) → AllUniform {D = D} (number_args o)
  unfolding number_args
  number_args-AllUniform none = tt
  number_args-AllUniform (some n) = (tt, tt)

  pub nonempty_args-AllUniform : (s : Bytes) → AllUniform {D = D} (nonempty_args s)
  unfolding nonempty_args
  nonempty_args-AllUniform [] = tt
  nonempty_args-AllUniform (c ∷ s) = (tt, tt)

  pub literal_args-AllUniform : (b : Bool) (w : Bytes) → AllUniform {D = D} (literal_args b w)
  unfolding literal_args
  literal_args-AllUniform true w = (tt, tt)
  literal_args-AllUniform false w = tt

module _ {D : Type 0} where
  pub append_args-AllUniform :
      (ts bs : Args D) → AllUniform ts → AllUniform bs → AllUniform (append_args ts bs)
  unfolding append_args
  append_args-AllUniform end bs h k = k
  append_args-AllUniform (arg a ts) bs h k = (h.0, append_args-AllUniform ts bs h.1 k)

module _ {D : Type 0} ⦃F : Floating D⦄ where
  pub append_args-words :
      (ts bs : Args D) → words_of (append_args ts bs) ≡ words_of ts ++ words_of bs
  unfolding words_of append_args
  append_args-words end bs = refl
  append_args-words (arg a ts) bs =
      ap (λ ws. words a ++ ws) (append_args-words ts bs)
      ∙ sym (append_assoc (words a) (words_of ts) (words_of bs))

module _ (D : Type 0) ⦃F : Floating D⦄ where
  pub number_args-words : (o : Option ℤ) → words_of {D = D} (number_args o) ≡ number_words o
  unfolding words_of number_args number_words
  number_args-words none = refl
  number_args-words (some n) = refl

  pub nonempty_args-words :
      (s : Bytes) → words_of {D = D} (nonempty_args s) ≡ when (not (is_empty s)) s
  unfolding words_of nonempty_args when is_empty
  nonempty_args-words [] = refl
  nonempty_args-words (c ∷ s) = refl

  pub literal_args-words : (b : Bool) (w : Bytes) → words_of {D = D} (literal_args b w) ≡ when b w
  unfolding words_of literal_args when
  literal_args-words true w = refl
  literal_args-words false w = refl

  pub member_args-words :
      (ms : List (ScoreMember D)) → words_of {D = D} (member_args ms) ≡ member_words ms
  unfolding words_of member_args member_words
  member_args-words [] = refl
  member_args-words (m ∷ ms) = ap (λ r. F.show m.score ∷ m.member ∷ r) (member_args-words ms)

  pub floating_args-words : (xs : List D) → words_of {D = D} (floating_args xs) ≡ floating_words xs
  unfolding words_of floating_args floating_words
  floating_args-words [] = refl
  floating_args-words (x ∷ xs) = ap (λ r. F.show x ∷ r) (floating_args-words xs)

  pub optional_arg-words : (o : Option Bytes) → words {D = D} (optional_arg o) ≡ option_words o
  unfolding words optional_arg option_words
  optional_arg-words none = refl
  optional_arg-words (some s) = refl

  pub string_args-words : (ss : List Bytes) → words_of {D = D} (string_args ss) ≡ ss
  unfolding words_of string_args
  string_args-words [] = refl
  string_args-words (s ∷ ss) = ap (λ r. s ∷ r) (string_args-words ss)

  pub pair_args-words :
      (es : List (Bytes × Bytes)) → words_of {D = D} (pair_args es) ≡ key_values es
  unfolding words_of pair_args key_values
  pair_args-words [] = refl
  pair_args-words ((k, v) ∷ es) = ap (λ r. k ∷ v ∷ r) (pair_args-words es)
