-- ===== src/Reply/Cluster.antt =====
-- reply.cpp: a line of CLUSTER NODES turned into a `cluster_node`.
pub mod Line
pub mod Laws
pub mod Bounds
use qbm_redis.Base.{
  ℕ, Bool, true, false, not, List, [], ◌∷◌, ◌++◌, Option, none, some, String, Bytes, codes, ◌==◌,
  if◌then◌else◌,
}
use qbm_redis.Base.Int.{ℤ}
use qbm_redis.Decimal.{Numeric, value, is_space}
use qbm_redis.Decimal.Extract.{extract_word, extract_integer, extract_int, stoi}
use qbm_redis.Types.{ClusterNode}
use qbm_redis.Outcome.{Exception, proto_error, Outcome, ok, throw, ◌>>=◌, ◌>>◌, throw_if}
use qbm_redis.Reply.{RedisReply, is_string, expected}
use qbm_redis.Reply.Scalars.{parse_string}

-- `find(c)`: the text before and behind the first `c`
unfoldable pub split_on : ℕ → Bytes → Option (Bytes × Bytes)
split_on d [] = none
split_on d (c ∷ s) =
    if c == d
    then some ([], s)
    else elim (split_on d s) [ none ↦ none | some (a, b) ↦ some (c ∷ a, b) ]

-- `if (!(iss >> x)) throw ProtoError(text + node_info);`
unfoldable pub extracted : {A : Type 0} → Option (A × Bytes) → String → Bytes → Outcome (A × Bytes)
extracted none text node_info = throw (proto_error (codes text ++ node_info))
extracted (some r) text node_info = ok r

-- `port_str`, from the text before and behind the colon: up to the `@`, where the first one is behind
-- the colon; before it, the length of the part wraps around, and all of the rest is taken.
unfoldable pub port_text : Bytes → Bytes → Bytes
unfolding split_on
port_text ip behind = elim (split_on b'@' ip) [
  | some p ↦ behind
  | none ↦ elim (split_on b'@' behind) [ none ↦ behind | some (port, cport) ↦ port ]
]

port_of : Bytes → Outcome ℤ
port_of port_str = elim (stoi port_str) [
  | value n ↦ ok n
  | _ ↦ throw (proto_error (codes "Invalid port: " ++ port_str))
]

-- `<ip:port@cport>`
unfoldable pub address_of : Bytes → Outcome (Bytes × ℤ)
unfolding split_on port_text port_of
address_of token = elim (split_on b':' token) [
  | none ↦ throw (proto_error (codes "Invalid address format (missing colon): " ++ token))
  | some (ip, behind) ↦ port_of (port_text ip behind) >>= λ port. ok (ip, port)
]

-- The loop over the flags: the parts of the token between its commas, with the one begun so far.
unfoldable pub comma_parts : Bytes → Bytes → List Bytes
comma_parts part [] = part ∷ []
comma_parts part (c ∷ s) = elim (c == b',') [
  | true ↦ part ∷ comma_parts [] s
  | false ↦ comma_parts (part ++ c ∷ []) s
]

-- `while (iss >> token)`: the words that are left, with the one begun so far.
unfoldable pub rest_words : Bytes → Bytes → List Bytes
rest_words [] [] = []
rest_words (w ∷ ws) [] = (w ∷ ws) ∷ []
rest_words [] (c ∷ s) = elim (is_space c) [ true ↦ rest_words [] s | false ↦ rest_words (c ∷ []) s ]
rest_words (w ∷ ws) (c ∷ s) = elim (is_space c) [
  | true ↦ (w ∷ ws) ∷ rest_words [] s
  | false ↦ rest_words ((w ∷ ws) ++ c ∷ []) s
]

unfoldable pub node_of : Bytes → Outcome ClusterNode
unfolding extracted address_of comma_parts rest_words
node_of node_info = do
  id ← extracted (extract_word node_info) "Failed to parse node ID from: " node_info
  token ← extracted (extract_word id.1) "Failed to parse node address from: " node_info
  address ← address_of token.0
  flags ← extracted (extract_word token.1) "Failed to parse node flags from: " node_info
  master ← extracted (extract_word flags.1) "Failed to parse node master from: " node_info
  ping ← extracted (extract_integer master.1) "Failed to parse ping sent from: " node_info
  pong ← extracted (extract_integer ping.1) "Failed to parse pong received from: " node_info
  epoch ← extracted (extract_int pong.1) "Failed to parse epoch from: " node_info
  link ← extracted (extract_word epoch.1) "Failed to parse link state from: " node_info
  ok (record {
    id = id.0;
    ip = address.0;
    port = address.1;
    flags = comma_parts [] flags.0;
    master = master.0;
    ping_sent = ping.0;
    pong_received = pong.0;
    epoch = epoch.0;
    link_state = link.0;
    slots = rest_words [] link.1;
  })

unfoldable pub parse_cluster_node : RedisReply → Outcome ClusterNode
unfolding is_string node_of
parse_cluster_node r = do
  throw_if (not (is_string r)) (expected "STRING" r)
  node_info ← parse_string r
  node_of node_info
