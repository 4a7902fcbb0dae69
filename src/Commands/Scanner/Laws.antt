-- ===== src/Commands/Scanner/Laws.antt =====
-- hash_commands.h: what a gathering of several replies comes to.
use qbm_redis.Base.{
  ◌≡◌, refl, sym, ap, ◌∙◌, Bool, true, ◌&&◌, List, [], ◌∷◌, ◌++◌, append_assoc, append-nil, Bytes,
  arith, length, is_empty,
}
use qbm_redis.Handler.{Reply}
use qbm_redis.Commands.Scanner.{Gathered, gather, hvals_step, hvals_replies, multi_hvals}

unfoldable pub all_ok : List (Reply (List Bytes)) → Bool
all_ok [] = true
all_ok (r ∷ rs) = r.is_ok && all_ok rs

unfoldable pub all_values : List (Reply (List Bytes)) → List Bytes
all_values [] = []
all_values (r ∷ rs) = r.result ++ all_values rs

gathered_same :
    {a b : Bool} {xs ys : List Bytes}
    → a ≡ b
    → xs ≡ ys
    → ◌≡◌ {A = List Gathered}
        (record { is_ok = a; items = xs } ∷ [])
        (record { is_ok = b; items = ys } ∷ [])
gathered_same p q = cc

and_assoc : (a b c : Bool) → ((a && b) && c) ≡ (a && (b && c))
and_assoc a b c = ground arith

and-true-end : (a b : Bool) → (a && b) ≡ (a && (b && true))
and-true-end a b = ground arith

hvals_replies-all :
    (g : Gathered) (key : Bytes) (keys : List Bytes) (r : Reply (List Bytes))
    (rs : List (Reply (List Bytes)))
    → length keys ≡ length rs
    → hvals_replies g (key ∷ keys) (r ∷ rs)
      ≡ record { is_ok = g.is_ok && all_ok (r ∷ rs); items = g.items ++ all_values (r ∷ rs) } ∷ []
unfolding hvals_replies hvals_step gather all_ok all_values is_empty
hvals_replies-all g key [] r [] h =
    gathered_same (and-true-end g.is_ok r.is_ok)
      (ap (λ v. g.items ++ v) (sym (append-nil r.result)))
hvals_replies-all g key [] r (r2 ∷ rs) h = absurd (omega arith)
hvals_replies-all g key (k ∷ keys) r [] h = absurd (omega arith)
hvals_replies-all g key (k ∷ keys) r (r2 ∷ rs) h =
    hvals_replies-all (gather r g) k keys r2 rs (omega arith)
    ∙ gathered_same (and_assoc g.is_ok r.is_ok (all_ok (r2 ∷ rs)))
        (append_assoc g.items r.result (all_values (r2 ∷ rs)))

-- `hvals` of several keys, when each of them is answered: the callback is called exactly once, with the
-- values of all keys in the order of the keys, and with `ok()` exactly if all replies are; for no keys it
-- is called once, with no values.
pub multi_hvals-once :
    (keys : List Bytes) (rs : List (Reply (List Bytes)))
    → length keys ≡ length rs
    → multi_hvals keys rs ≡ record { is_ok = all_ok rs; items = all_values rs } ∷ []
unfolding multi_hvals all_ok all_values
multi_hvals-once [] [] h = refl
multi_hvals-once [] (r ∷ rs) h = absurd (omega arith)
multi_hvals-once (k ∷ ks) [] h = absurd (omega arith)
multi_hvals-once (k ∷ ks) (r ∷ rs) h =
    hvals_replies-all (record { is_ok = true; items = [] }) k ks r rs (omega arith)
