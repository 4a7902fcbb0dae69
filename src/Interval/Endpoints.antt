-- ===== src/Interval/Endpoints.antt =====
-- redis.cpp: the texts of an interval as a server reads them. `(` in front excludes the end, `[`
-- includes it in a range of texts; a number is included by itself; `-inf`, `+inf`, `-` and `+` are
-- no bound.
use qbm_redis.Base.{
  ◌≡◌, refl, ap, [], ◌∷◌, Option, none, some, Bytes, codes, same_bytes, ◌==◌, if◌then◌else◌, ◌⊎◌,
  inl, inr,
}
use qbm_redis.Floating.{Floating}
use qbm_redis.Types.{BoundType, closed, opened, left_open, right_open}
use qbm_redis.Outcome.{error, Outcome, ok, throw}
use qbm_redis.Interval.{
  Interval, unbounded_double, bounded_double, left_bounded_double, right_bounded_double,
  unbounded_string, bounded_string, left_bounded_string, right_bounded_string,
}

pub data Endpoint : Type 0 where
  minus_infinity plus_infinity : Endpoint
  included excluded : Bytes → Endpoint

-- ZRANGEBYLEX; `none` is a syntax error.
unfoldable pub read_lex : Bytes → Option Endpoint
read_lex [] = none
read_lex (c ∷ s) =
    if c == b'['
    then some (included s)
    else if c == b'('
    then some (excluded s)
    else if same_bytes (c ∷ s) (codes "-")
    then some minus_infinity
    else if same_bytes (c ∷ s) (codes "+")
    then some plus_infinity
    else none

-- ZRANGEBYSCORE; what is no infinity is read as a number later.
unfoldable pub read_score : Bytes → Endpoint
read_score [] = included []
read_score (c ∷ s) =
    if c == b'('
    then excluded s
    else if same_bytes (c ∷ s) (codes "-inf")
    then minus_infinity
    else if same_bytes (c ∷ s) (codes "+inf")
    then plus_infinity
    else included (c ∷ s)

-- Whether a type of bounds leaves the lower and the upper end out.
abbrev pub lower_end : BoundType → Bytes → Endpoint
lower_end opened = excluded
lower_end left_open = excluded
lower_end _ = included

abbrev pub upper_end : BoundType → Bytes → Endpoint
upper_end opened = excluded
upper_end right_open = excluded
upper_end _ = included

-- What a server makes of the two texts of an interval.
abbrev pub lex_ends : Interval → Option Endpoint × Option Endpoint
lex_ends i = (read_lex i.lower, read_lex i.upper)

abbrev pub score_ends : Interval → Endpoint × Endpoint
score_ends i = (read_score i.lower, read_score i.upper)

-- The types of bounds that a half-bounded interval takes.
abbrev pub LexLeft : Bytes → BoundType → Outcome Interval → Type 0
LexLeft min t (ok i) =
    ((t ≡ opened) ⊎ (t ≡ right_open)) × (lex_ends i ≡ (some (lower_end t min), some plus_infinity))
LexLeft min t (throw e) =
    ((t ≡ closed) ⊎ (t ≡ left_open))
    × (e ≡ error (codes "Bound type can only be OPEN or RIGHT_OPEN"))
LexLeft min t _ = ⊥

abbrev pub LexRight : Bytes → BoundType → Outcome Interval → Type 0
LexRight max t (ok i) =
    ((t ≡ opened) ⊎ (t ≡ left_open)) × (lex_ends i ≡ (some minus_infinity, some (upper_end t max)))
LexRight max t (throw e) =
    ((t ≡ closed) ⊎ (t ≡ right_open))
    × (e ≡ error (codes "Bound type can only be OPEN or LEFT_OPEN"))
LexRight max t _ = ⊥

-- Of every interval of texts a server reads the ends that the type of bounds names, whatever the texts
-- are; a left-bounded interval is refused exactly for CLOSED and LEFT_OPEN, and a right-bounded one
-- exactly for CLOSED and RIGHT_OPEN.
pub string_intervals :
    (min max : Bytes) (t : BoundType)
    → (lex_ends unbounded_string ≡ (some minus_infinity, some plus_infinity))
      × (lex_ends (bounded_string min max t) ≡ (some (lower_end t min), some (upper_end t max)))
      × LexLeft min t (left_bounded_string min t)
      × LexRight max t (right_bounded_string max t)
unfolding unbounded_string bounded_string left_bounded_string right_bounded_string read_lex
    same_bytes codes
string_intervals min max closed = (refl, refl, (inl refl, refl), (inl refl, refl))
string_intervals min max opened = (refl, refl, (inl refl, refl), (inl refl, refl))
string_intervals min max left_open = (refl, refl, (inr refl, refl), (inr refl, refl))
string_intervals min max right_open = (refl, refl, (inr refl, refl), (inr refl, refl))

both : {a b c d : Endpoint} → a ≡ b → c ≡ d → ◌≡◌ {A = Endpoint × Endpoint} (a, c) (b, d)
both p q = λ i. (p i, q i)

module _ {D : Type 0} ⦃F : Floating D⦄ where
  -- The text of a number is read as that number, and not as an excluded or a missing end. This is so
  -- for `std::to_string` of every finite number, which begins with a digit or a minus sign and a digit.
  abbrev pub IsPlain : D → Type 0
  IsPlain x = read_score (F.show x) ≡ included (F.show x)

  abbrev pub ScoreLeft : D → BoundType → Outcome Interval → Type 0
  ScoreLeft min t (ok i) =
      ((t ≡ opened) ⊎ (t ≡ right_open)) × (score_ends i ≡ (lower_end t (F.show min), plus_infinity))
  ScoreLeft min t (throw e) =
      ((t ≡ closed) ⊎ (t ≡ left_open))
      × (e ≡ error (codes "Bound type can only be OPEN or RIGHT_OPEN"))
  ScoreLeft min t _ = ⊥

  abbrev pub ScoreRight : D → BoundType → Outcome Interval → Type 0
  ScoreRight max t (ok i) =
      ((t ≡ opened) ⊎ (t ≡ left_open)) × (score_ends i ≡ (minus_infinity, upper_end t (F.show max)))
  ScoreRight max t (throw e) =
      ((t ≡ closed) ⊎ (t ≡ right_open))
      × (e ≡ error (codes "Bound type can only be OPEN or LEFT_OPEN"))
  ScoreRight max t _ = ⊥

  -- Of every interval of numbers whose texts are plain a server reads the ends that the type of bounds
  -- names; the half-bounded ones are refused for the same types as those of texts.
  pub double_intervals :
      (min max : D) (t : BoundType)
      → IsPlain min
      → IsPlain max
      → (score_ends unbounded_double ≡ (minus_infinity, plus_infinity))
        × (score_ends (bounded_double min max t)
            ≡ (lower_end t (F.show min), upper_end t (F.show max)))
        × ScoreLeft min t (left_bounded_double min t)
        × ScoreRight max t (right_bounded_double max t)
  unfolding unbounded_double bounded_double left_bounded_double right_bounded_double read_score
      same_bytes codes
  double_intervals min max closed p q = (refl, both p q, (inl refl, refl), (inl refl, refl))
  double_intervals min max opened p q = (refl, refl, (inl refl, refl), (inl refl, refl))
  double_intervals min max left_open p q = (
    refl,
    ap (λ e. (excluded (F.show min), e)) q,
    (inr refl, refl),
    (inr refl, ap (λ e. (minus_infinity, e)) q),
  )
  double_intervals min max right_open p q = (
    refl,
    ap (λ e. (e, excluded (F.show max))) p,
    (inr refl, ap (λ e. (e, plus_infinity)) p),
    (inr refl, refl),
  )
