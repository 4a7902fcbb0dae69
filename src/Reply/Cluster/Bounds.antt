-- ===== src/Reply/Cluster/Bounds.antt =====
-- reply.cpp, `parse<cluster_node>`: what it throws, and the ranges of its numbers.
use qbm_redis.Base.{◌++◌, Option, none, some, String, Bytes, codes, arith, not}
use qbm_redis.Base.Int.{ℤ, InInt64}
use qbm_redis.Decimal.Extract.{InInt, extract_word, extract_integer, extract_int}
use qbm_redis.Decimal.Extract.Bounds.{
  OfExtracted, extract_integer-InInt64, extract_int-InInt, stoi-InInt,
}
use qbm_redis.Types.{ClusterNode}
use qbm_redis.Outcome.{proto_error, ok, throw, IsCaught, ◌>>=◌}
use qbm_redis.Outcome.Caught.{
  IsSafe, >>=-IsSafe, ok-IsSafe, guard-IsSafe, IsCaught-IsSafe, IsSafe-IsCaught,
}
use qbm_redis.Reply.{RedisReply, expected, is_string}
use qbm_redis.Reply.Scalars.{parse_string}
use qbm_redis.Reply.Scalars.Laws.{parse_string-IsCaught}
use qbm_redis.Reply.Cluster.{
  extracted, port_of, port_text, address_of, split_on, node_of, parse_cluster_node,
}

-- The numbers of a node fit an `int` and a `long long`.
pub record Fits (n : ClusterNode) : Type 0 where
  pub port_fits : InInt n.port
  pub ping_fits : InInt64 n.ping_sent
  pub pong_fits : InInt64 n.pong_received
  pub epoch_fits : InInt n.epoch

word-IsSafe :
    (o : Option (Bytes × Bytes)) (text : String) (s : Bytes)
    → IsSafe (λ r. Unit {0}) (extracted o text s)
unfolding extracted IsSafe
word-IsSafe none text s = tt
word-IsSafe (some r) text s = tt

integer-IsSafe :
    (P : ℤ → Type 0) (o : Option (ℤ × Bytes)) (text : String) (s : Bytes)
    → OfExtracted P o
    → IsSafe (λ r. P r.0) (extracted o text s)
unfolding extracted IsSafe
integer-IsSafe P none text s h = tt
integer-IsSafe P (some r) text s h = h

port_of-IsSafe : (s : Bytes) → IsSafe InInt (port_of s)
unfolding port_of IsSafe
port_of-IsSafe s = ground (arith, stoi-InInt s)

address_parts-IsSafe :
    (token : Bytes) (o : Option (Bytes × Bytes))
    → IsSafe
        (λ (r : Bytes × ℤ). InInt r.1)
        (elim o [
          | none ↦ throw (proto_error (codes "Invalid address format (missing colon): " ++ token))
          | some (ip, behind) ↦ port_of (port_text ip behind) >>= λ port. ok (ip, port)
        ])
unfolding IsSafe
address_parts-IsSafe token none = tt
address_parts-IsSafe token (some (ip, behind)) =
    >>=-IsSafe InInt _ (port_of (port_text ip behind)) _ (port_of-IsSafe (port_text ip behind))
      (λ n h. h)

address_of-IsSafe : (token : Bytes) → IsSafe (λ (r : Bytes × ℤ). InInt r.1) (address_of token)
unfolding address_of
address_of-IsSafe token = address_parts-IsSafe token (split_on b':' token)

-- The parts of a line, extracted one after the other.
node_of-IsSafe : (s : Bytes) → IsSafe Fits (node_of s)
unfolding node_of
node_of-IsSafe s = >>=-IsSafe _ _ _ _ (word-IsSafe (extract_word s) _ s) (λ id _.
    >>=-IsSafe _ _ _ _ (word-IsSafe (extract_word id.1) _ s) (λ token _.
      >>=-IsSafe _ _ _ _ (address_of-IsSafe token.0) (λ address a.
        >>=-IsSafe _ _ _ _ (word-IsSafe (extract_word token.1) _ s) (λ flags _.
          >>=-IsSafe _ _ _ _ (word-IsSafe (extract_word flags.1) _ s) (λ master _.
            >>=-IsSafe _ _ _ _
              (integer-IsSafe InInt64 (extract_integer master.1) _ s
                (extract_integer-InInt64 master.1))
              (λ ping b.
                >>=-IsSafe _ _ _ _
                  (integer-IsSafe InInt64 (extract_integer ping.1) _ s
                    (extract_integer-InInt64 ping.1))
                  (λ pong c.
                    >>=-IsSafe _ _ _ _
                      (integer-IsSafe InInt (extract_int pong.1) _ s (extract_int-InInt pong.1))
                      (λ epoch d.
                        >>=-IsSafe _ _ _ _ (word-IsSafe (extract_word epoch.1) _ s) (λ link _.
                          ok-IsSafe Fits _ (record {
                            port_fits = a;
                            ping_fits = b;
                            pong_fits = c;
                            epoch_fits = d;
                          }))))))))))

pub parse_cluster_node-Fits : (r : RedisReply) → IsSafe Fits (parse_cluster_node r)
unfolding parse_cluster_node expected
parse_cluster_node-Fits r =
    >>=-IsSafe _ _ _ _ (guard-IsSafe (not (is_string r)) (expected "STRING" r) tt) (λ _ _.
      >>=-IsSafe _ _ _ _ (IsCaught-IsSafe (parse_string r) (parse_string-IsCaught r))
        (λ s _. node_of-IsSafe s))

pub parse_cluster_node-IsCaught : (r : RedisReply) → IsCaught (parse_cluster_node r)
parse_cluster_node-IsCaught r =
    IsSafe-IsCaught Fits (parse_cluster_node r) (parse_cluster_node-Fits r)
