-- ===== src/Tests/Scanner.antt =====
-- The theorems on scans and on gathered replies at concrete inputs.
use qbm_redis.Base.{
  ℕ, ◌≡◌, refl, ◌++◌, true, false, List, [], ◌∷◌, map, none, some, Bytes, codes, same_bytes, arith,
}
use qbm_redis.Base.Int.{ℤ, pos}
use qbm_redis.Types.{Scan}
use qbm_redis.Handler.{Reply}
use qbm_redis.Commands.Scanner.{multi_hvals}
use qbm_redis.Commands.Scanner.Laws.{all_ok, all_values, multi_hvals-once}
use qbm_redis.Tests.{integers}
use qbm_redis.Reply.Containers.{insert_all}
use qbm_redis.Commands.Sets.Members.{sscan_request}
use qbm_redis.Commands.SortedSets.Members.{zscan_request}
use qbm_redis.Commands.Scanner.Keyed.{to_int64, sscan_all, zscan_all}
use qbm_redis.Commands.Scanner.Keyed.Laws.{page_of, gathered, asked, keyed_scans-pages}

abbrev pages : List (ℕ × List Bytes)
pages = (5, codes "a" ∷ []) ∷ (9, []) ∷ (3, codes "b" ∷ codes "c" ∷ []) ∷ []

abbrev last_page : Reply (Scan (List Bytes))
last_page = page_of (0, codes "d" ∷ [])

abbrev values : Reply (List Bytes)
values = record { is_ok = true; result = codes "v" ∷ codes "w" ∷ []; raw = none; error = [] }

abbrev failure : Reply (List Bytes)
failure = record { is_ok = false; result = []; raw = none; error = codes "ERR" }

multi_hvals-once_example :
    multi_hvals (codes "k" ∷ codes "l" ∷ codes "m" ∷ []) (values ∷ failure ∷ values ∷ [])
    ≡ record {
      is_ok = all_ok (values ∷ failure ∷ values ∷ []);
      items = all_values (values ∷ failure ∷ values ∷ []);
    }
      ∷ []
multi_hvals-once_example =
    multi_hvals-once (codes "k" ∷ codes "l" ∷ codes "m" ∷ []) (values ∷ failure ∷ values ∷ [])
      (omega arith)

abbrev scores : List (ℕ × List (Bytes × ℤ))
scores = (4, (codes "m", pos 1) ∷ []) ∷ []

abbrev last_scores : Reply (Scan (List (Bytes × ℤ)))
last_scores = page_of (0, (codes "m", pos 2) ∷ [])

keyed_scans-pages_example :
    (sscan_all {D = ℤ} (b'k' ∷ []) (codes "*") (map page_of pages ++ last_page ∷ []) ≡ (
      asked (λ n. sscan_request (b'k' ∷ []) (to_int64 n) (codes "*") (pos 100)) 0 pages,
      some
          (record { is_ok = true; items = gathered (λ a b. a ++ b) [] pages (codes "d" ∷ []) }, []),
    ))
    × (zscan_all (b'k' ∷ []) (codes "*") (map page_of scores ++ last_scores ∷ []) ≡ (
      asked (λ n. zscan_request (b'k' ∷ []) (to_int64 n) (codes "*") (pos 100)) 0 scores,
      some (
        record {
          is_ok = true;
          items = gathered (insert_all same_bytes) [] scores ((codes "m", pos 2) ∷ []);
        },
        [],
      ),
    ))
    × (sscan_all {D = ℤ} [] (codes "*") [] ≡ ([], none))
    × (zscan_all {D = ℤ} [] (codes "*") [] ≡ ([], none))
keyed_scans-pages_example =
    keyed_scans-pages ℤ b'k' [] (codes "*") pages last_page [] scores last_scores [] (omega arith)
      refl (omega arith) refl
