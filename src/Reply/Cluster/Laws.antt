-- ===== src/Reply/Cluster/Laws.antt =====
-- reply.cpp, `parse<cluster_node>`: the reading of whole lines of CLUSTER NODES.
use qbm_redis.Base.{ℕ, ◌≡◌, refl, ◌∷◌, ◌++◌, Option, none, some, Bytes, codes, All, All-append}
use qbm_redis.Decimal.{to_string, stoll, skip_space, signed_digits, read_sign}
use qbm_redis.Decimal.Extract.{stoi}
use qbm_redis.Decimal.Extract.Laws.{
  IsGraph, IsWord, extract_word-front, extract_word-next, extract_integer-next, extract_int-next,
}
use qbm_redis.Types.{ClusterNode}
use qbm_redis.Outcome.{proto_error, ok, throw}
use qbm_redis.Reply.Scalars.{parse_string}
use qbm_redis.Reply.Containers.Laws.Cursor.{string_reply}
use qbm_redis.Reply.Cluster.{
  split_on, extracted, port_text, port_of, address_of, node_of, parse_cluster_node,
}
use qbm_redis.Reply.Cluster.Line.{
  Lacks, joined, spaced, address_text, IsNode, after_epoch, after_master, node_line,
  split_on-append, split_on-none, address_of-text, comma_parts-joined, rest_words-All, spaced-Stops,
  not_nil_append, address-IsWord,
}

-- The parts of the line, extracted one after the other.
node_of-line :
    (n : ClusterNode) (port cport : ℕ)
    → IsNode n port cport
    → node_of (node_line n port cport) ≡ ok n
unfolding node_of node_line after_master after_epoch extracted
node_of-line n port cport h = rw (
  extract_word-front n.id
      (b' '
        ∷ (address_text n.ip port cport
            ++ b' ' ∷ (joined n.flags ++ b' ' ∷ (n.master ++ after_master n))))
      h.id_word refl,
  extract_word-next (address_text n.ip port cport)
      (b' ' ∷ (joined n.flags ++ b' ' ∷ (n.master ++ after_master n)))
      (address-IsWord n.ip port cport h.ip_graph) refl,
  address_of-text n.ip port cport h.ip_colon h.ip_at h.port_fits,
  extract_word-next (joined n.flags) (b' ' ∷ (n.master ++ after_master n)) h.flags_word refl,
  extract_word-next n.master (after_master n) h.master_word refl,
  extract_integer-next n.ping_sent
      (b' ' ∷ (to_string n.pong_received ++ b' ' ∷ (to_string n.epoch ++ after_epoch n)))
      h.ping_fits refl,
  extract_integer-next n.pong_received (b' ' ∷ (to_string n.epoch ++ after_epoch n)) h.pong_fits
      refl,
  extract_int-next n.epoch (after_epoch n) h.epoch_fits refl,
  extract_word-next n.link_state (spaced n.slots) h.link_word (spaced-Stops n.slots),
  comma_parts-joined n.flags h.flags_there h.flags_comma,
  rest_words-All n.slots h.slot_words,
  ← h.port_value,
)

-- A line of CLUSTER NODES in the documented format, with a cluster bus port, is read as the node that
-- it describes.
pub parse_cluster_node-line :
    (n : ClusterNode) (port cport : ℕ)
    → IsNode n port cport
    → parse_cluster_node (string_reply (node_line n port cport)) ≡ ok n
unfolding parse_cluster_node parse_string
parse_cluster_node-line n port cport h = node_of-line n port cport h

port_of_colon :
    (s : Bytes) → port_of (b':' ∷ s) ≡ throw (proto_error (codes "Invalid port: " ++ b':' ∷ s))
unfolding port_of stoi stoll skip_space read_sign signed_digits
port_of_colon s = refl

colon_port :
    (s : Bytes) (o : Option (Bytes × Bytes))
    → split_on b'@' s ≡ o
    → (t : Bytes) × (elim (split_on b'@' (b':' ∷ s)) [ none ↦ b':' ∷ s | some (port, cport) ↦ port ]
        ≡ b':' ∷ t)
unfolding split_on
colon_port s none p = (s, rw (p, split_on))
colon_port s (some (a, b)) p = (a, rw (p, split_on))

address_of_double :
    (head s : Bytes)
    → Lacks b':' head
    → Lacks b'@' head
    → (t : Bytes) × (address_of (head ++ b':' ∷ (b':' ∷ s))
        ≡ throw (proto_error (codes "Invalid port: " ++ b':' ∷ t)))
unfolding address_of port_text
address_of_double head s l k =
    let (t, p) = colon_port s (split_on b'@' s) refl in
    (
      t,
      rw (
        split_on-append b':' head (b':' ∷ s) l refl,
        address_of,
        split_on-none b'@' head k,
        port_text,
        p,
        port_of_colon t,
      ),
    )

double-IsWord :
    (head s : Bytes) → All IsGraph head → All IsGraph s → IsWord (head ++ b':' ∷ (b':' ∷ s))
double-IsWord head s g h =
    (not_nil_append head b':' _, All-append IsGraph head (b':' ∷ (b':' ∷ s)) g (refl, (refl, h)))

-- A line whose address has two colons next to each other, with none in front of these, such as
-- `fe80::1:7000@17000`, is refused for its port, whatever follows.
pub parse_cluster_node_double_colon :
    (id head s rest : Bytes)
    → IsWord id
    → All IsGraph head
    → All IsGraph s
    → Lacks b':' head
    → Lacks b'@' head
    → (t : Bytes) × (parse_cluster_node
          (string_reply (id ++ b' ' ∷ ((head ++ b':' ∷ (b':' ∷ s)) ++ b' ' ∷ rest)))
        ≡ throw (proto_error (codes "Invalid port: " ++ b':' ∷ t)))
unfolding parse_cluster_node parse_string node_of extracted
parse_cluster_node_double_colon id head s rest w g h l k =
    let (t, p) = address_of_double head s l k in
    (
      t,
      rw (
        extract_word-front id (b' ' ∷ ((head ++ b':' ∷ (b':' ∷ s)) ++ b' ' ∷ rest)) w refl,
        node_of,
        extract_word-next (head ++ b':' ∷ (b':' ∷ s)) (b' ' ∷ rest) (double-IsWord head s g h) refl,
        p,
      ),
    )
