-- ===== src/Commands/Scanner/Keyed/Laws.antt =====
-- set_commands.h and sorted_set_commands.h: what the scan of a key comes to.
use qbm_redis.Base.{
  ℕ, ◌≡◌, ◌≢◌, refl, true, false, not, ◌&&◌, List, [], ◌∷◌, ◌++◌, map, none, some, Bytes,
  same_bytes, is_empty, All, arith, ◌==◌,
}
use qbm_redis.Base.Int.{pos}
use qbm_redis.Floating.{Floating}
use qbm_redis.Types.{Scan}
use qbm_redis.Wire.{Args}
use qbm_redis.Handler.{Reply}
use qbm_redis.Reply.Containers.{insert_all}
use qbm_redis.Commands.{Request, sends, returns, pack}
use qbm_redis.Commands.Sets.Members.{sscan, sscan_request}
use qbm_redis.Commands.SortedSets.Members.{zscan, zscan_request}
use qbm_redis.Commands.Scanner.Keyed.{
  Progress, from_cursor, done, add_reply, next_step, keyed_run, to_int64, sscan_all, zscan_all,
}

-- A reply that is no error, with its cursor.
abbrev pub page_of : {T : Type 0} → ℕ × T → Reply (Scan T)
page_of (cursor, items) = record {
  is_ok = true;
  result = record { cursor = cursor; items = items };
  raw = none;
  error = [];
}

-- A reply that ends a scan: an error, or the cursor 0.
abbrev pub Ends : {T : Type 0} → Reply (Scan T) → Type 0
Ends r = (r.is_ok && not (r.result.cursor == 0)) ≡ false

-- The items of all replies, put into each other in the order of the replies.
unfoldable pub gathered : {T : Type 0} → (T → T → T) → T → List (ℕ × T) → T → T
gathered insert out [] last = insert out last
gathered insert out ((cursor, items) ∷ ps) last = gathered insert (insert out items) ps last

-- The commands that ask for the cursor of each page behind the first command.
unfoldable pub asked : {D T : Type 0} → (ℕ → Request D (Scan T)) → ℕ → List (ℕ × T) → List (Args D)
asked request cursor [] = pack (request cursor) ∷ []
asked request cursor ((next, items) ∷ ps) = pack (request cursor) ∷ asked request next ps

not_zero : (n : ℕ) → n ≢ 0 → (n == 0) ≡ false
not_zero n h = ground arith

module _ {D T : Type 0} (insert : T → T → T) (request : ℕ → Request D (Scan T)) where
  next_step_last :
      (r : Reply (Scan T)) (p : Progress T)
      → Ends r
      → next_step insert (λ c. sends (request c)) r p
        ≡ done (record { is_ok = r.is_ok; items = insert p.items r.result.items })
  unfolding next_step add_reply
  next_step_last r p e = rw (e, next_step)

  next_step-page :
      (cursor : ℕ) (items : T) (p : Progress T)
      → cursor ≢ 0
      → next_step insert (λ c. sends (request c)) (page_of (cursor, items)) p
        ≡ from_cursor cursor (record { is_ok = true; items = insert p.items items })
  unfolding next_step add_reply
  next_step-page cursor items p h = rw (not_zero cursor h, next_step)

  keyed_run-pages :
      (cursor : ℕ) (p : Progress T) (ps : List (ℕ × T)) (r : Reply (Scan T))
      (rs : List (Reply (Scan T)))
      → All (λ q. q.0 ≢ 0) ps
      → Ends r
      → keyed_run insert (λ c. sends (request c)) cursor p (map page_of ps ++ r ∷ rs) ≡ (
        asked request cursor ps,
        some (record { is_ok = r.is_ok; items = gathered insert p.items ps r.result.items }, rs),
      )
  unfolding keyed_run asked gathered
  keyed_run-pages cursor p [] r rs h e = rw (next_step_last r p e, keyed_run)
  keyed_run-pages cursor p ((next, items) ∷ ps) r rs (n, h) e = rw (
    next_step-page next items p n,
    keyed_run,
    keyed_run-pages next (record { is_ok = true; items = insert p.items items }) ps r rs h e,
  )

  keyed_run-returns :
      (early : Scan T) (p : Progress T) (rs : List (Reply (Scan T)))
      → keyed_run {D = D} insert (λ c. returns early) 0 p rs ≡ ([], none)
  unfolding keyed_run
  keyed_run-returns early p [] = refl
  keyed_run-returns early p (r ∷ rs) = refl

module _ (D : Type 0) ⦃F : Floating D⦄ where
  -- The scan of the members of a set, and that of a sorted set, whose replies are any pages with cursors
  -- other than 0, and then an error or a page with the cursor 0: the commands ask for the cursor 0 and
  -- then for that of each page, converted to a `long long`, in order; the callback is called once, with `ok()` of the last reply and
  -- the items of all replies, put together in order; the replies that follow are left for others. For an
  -- empty key nothing is sent, and the callback is not called.
  pub keyed_scans-pages :
      (c : ℕ) (key pattern : Bytes) (ps : List (ℕ × List Bytes)) (r : Reply (Scan (List Bytes)))
      (rs : List (Reply (Scan (List Bytes)))) (zs : List (ℕ × List (Bytes × D)))
      (z : Reply (Scan (List (Bytes × D)))) (ys : List (Reply (Scan (List (Bytes × D)))))
      → All (λ q. q.0 ≢ 0) ps
      → Ends r
      → All (λ q. q.0 ≢ 0) zs
      → Ends z
      → (sscan_all {D = D} (c ∷ key) pattern (map page_of ps ++ r ∷ rs) ≡ (
        asked (λ n. sscan_request (c ∷ key) (to_int64 n) pattern (pos 100)) 0 ps,
        some
            (record { is_ok = r.is_ok; items = gathered (λ a b. a ++ b) [] ps r.result.items }, rs),
      ))
        × (zscan_all (c ∷ key) pattern (map page_of zs ++ z ∷ ys) ≡ (
          asked (λ n. zscan_request (c ∷ key) (to_int64 n) pattern (pos 100)) 0 zs,
          some (
            record {
              is_ok = z.is_ok;
              items = gathered (insert_all same_bytes) [] zs z.result.items;
            },
            ys,
          ),
        ))
        × (sscan_all {D = D} [] pattern rs ≡ ([], none))
        × (zscan_all [] pattern ys ≡ ([], none))
  unfolding sscan_all zscan_all sscan zscan is_empty
  keyed_scans-pages c key pattern ps r rs zs z ys h e k d = (
    keyed_run-pages (λ a b. a ++ b) (λ n. sscan_request (c ∷ key) (to_int64 n) pattern (pos 100)) 0
        (record { is_ok = false; items = [] }) ps r rs h e,
    keyed_run-pages (insert_all same_bytes)
        (λ n. zscan_request (c ∷ key) (to_int64 n) pattern (pos 100)) 0
        (record { is_ok = false; items = [] }) zs z ys k d,
    keyed_run-returns (λ a b. a ++ b) (λ n. sscan_request (c ∷ key) (to_int64 n) pattern (pos 100))
        (record { cursor = 0; items = [] }) (record { is_ok = false; items = [] }) rs,
    keyed_run-returns (insert_all same_bytes)
        (λ n. zscan_request (c ∷ key) (to_int64 n) pattern (pos 100))
        (record { cursor = 0; items = [] }) (record { is_ok = false; items = [] }) ys,
  )
