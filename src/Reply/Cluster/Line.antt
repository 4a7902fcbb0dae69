-- ===== src/Reply/Cluster/Line.antt =====
-- The format of a line of CLUSTER NODES, and how its parts are taken apart.
use qbm_redis.Base.{
  ℕ, ◌≡◌, ◌≢◌, refl, ap, ◌∙◌, true, false, List, [], ◌∷◌, ◌++◌, append-nil, append_assoc, none,
  some, Bytes, All, All-append, arith, ◌==◌,
}
use qbm_redis.Base.Int.{pos, InInt64}
use qbm_redis.Decimal.{value, show_nat, to_string}
use qbm_redis.Decimal.RoundTrip.{IsDigit, show_nat-digits}
use qbm_redis.Decimal.Extract.{stoi, InInt}
use qbm_redis.Decimal.Extract.Laws.{IsGraph, IsWord, Stops, stoi-to_string}
use qbm_redis.Types.{ClusterNode}
use qbm_redis.Outcome.{ok}
use qbm_redis.Reply.Cluster.{split_on, port_text, port_of, address_of, comma_parts, rest_words}

-- No byte of the text is `d`.
abbrev pub Lacks : ℕ → Bytes → Type 0
Lacks d = All (λ c. (c == d) ≡ false)

-- Texts with commas between them, and texts with a blank in front of each.
unfoldable pub joined : List Bytes → Bytes
joined [] = []
joined (f ∷ []) = f
joined (f ∷ g ∷ fs) = f ++ b',' ∷ joined (g ∷ fs)

unfoldable pub spaced : List Bytes → Bytes
spaced [] = []
spaced (s ∷ ss) = b' ' ∷ (s ++ spaced ss)

-- `<ip:port@cport>`
unfoldable pub address_text : Bytes → ℕ → ℕ → Bytes
address_text ip port cport = ip ++ b':' ∷ (show_nat port ++ b'@' ∷ show_nat cport)

-- A node as a server describes it: no blank in its texts, no comma in its flags, a port of a node that
-- has no colon and no `@` in its address, and numbers in the range of their types.
pub record IsNode (n : ClusterNode) (port cport : ℕ) : Type 0 where
  pub id_word : IsWord n.id
  pub ip_graph : All IsGraph n.ip
  pub ip_colon : Lacks b':' n.ip
  pub ip_at : Lacks b'@' n.ip
  pub port_value : n.port ≡ pos port
  pub port_fits : InInt (pos port)
  pub flags_word : IsWord (joined n.flags)
  pub flags_there : n.flags ≢ []
  pub flags_comma : All (Lacks b',') n.flags
  pub master_word : IsWord n.master
  pub ping_fits : InInt64 n.ping_sent
  pub pong_fits : InInt64 n.pong_received
  pub epoch_fits : InInt n.epoch
  pub link_word : IsWord n.link_state
  pub slot_words : All IsWord n.slots

-- `<id> <ip:port@cport> <flags> <master> <ping-sent> <pong-recv> <epoch> <link-state> <slot> ...`
unfoldable pub after_epoch : ClusterNode → Bytes
after_epoch n = b' ' ∷ (n.link_state ++ spaced n.slots)

unfoldable pub after_master : ClusterNode → Bytes
after_master n =
    b' '
    ∷ (to_string n.ping_sent
        ++ b' ' ∷ (to_string n.pong_received ++ b' ' ∷ (to_string n.epoch ++ after_epoch n)))

unfoldable pub node_line : ClusterNode → ℕ → ℕ → Bytes
node_line n port cport =
    n.id
    ++ b' '
      ∷ (address_text n.ip port cport
          ++ b' ' ∷ (joined n.flags ++ b' ' ∷ (n.master ++ after_master n)))

pub split_on-append :
    (d : ℕ) (s t : Bytes) → Lacks d s → (d == d) ≡ true → split_on d (s ++ d ∷ t) ≡ some (s, t)
unfolding split_on
split_on-append d [] t h e = rw e
split_on-append d (c ∷ s) t (k, h) e = rw (k, split_on-append d s t h e)

pub split_on-none : (d : ℕ) (s : Bytes) → Lacks d s → split_on d s ≡ none
unfolding split_on
split_on-none d [] h = refl
split_on-none d (c ∷ s) (k, h) = rw (k, split_on-none d s h)

digits_lack : (s : Bytes) → All IsDigit s → Lacks b'@' s × All IsGraph s
digits_lack [] h = (tt, tt)
digits_lack (c ∷ s) (d, h) = let (l, g) = digits_lack s h in ((ground arith, l), (ground arith, g))

stoi-show : (port : ℕ) → InInt (pos port) → stoi (show_nat port) ≡ value (pos port)
unfolding to_string
stoi-show port h = stoi-to_string (pos port) h

port_of-show : (port : ℕ) → InInt (pos port) → port_of (show_nat port) ≡ ok (pos port)
unfolding port_of
port_of-show port h = rw (stoi-show port h, port_of)

port_text-show :
    (ip : Bytes) (port cport : ℕ)
    → Lacks b'@' ip
    → port_text ip (show_nat port ++ b'@' ∷ show_nat cport) ≡ show_nat port
unfolding port_text
port_text-show ip port cport k = rw (
  split_on-none b'@' ip k,
  port_text,
  split_on-append b'@' (show_nat port) (show_nat cport)
      (digits_lack (show_nat port) (show_nat-digits port)).0 refl,
)

pub address_of-text :
    (ip : Bytes) (port cport : ℕ)
    → Lacks b':' ip
    → Lacks b'@' ip
    → InInt (pos port)
    → address_of (address_text ip port cport) ≡ ok (ip, pos port)
unfolding address_of address_text
address_of-text ip port cport l k h = rw (
  split_on-append b':' ip (show_nat port ++ b'@' ∷ show_nat cport) l refl,
  address_of,
  port_text-show ip port cport k,
  port_of-show port h,
)

comma_parts-append : (part f : Bytes) → Lacks b',' f → comma_parts part f ≡ (part ++ f) ∷ []
unfolding comma_parts
comma_parts-append part [] h = rw append-nil
comma_parts-append part (c ∷ f) (k, h) =
    rw (k, comma_parts)
      (comma_parts-append (part ++ c ∷ []) f h ∙ ap (λ s. s ∷ []) (append_assoc part (c ∷ []) f))

comma_parts-more :
    (part f t : Bytes)
    → Lacks b',' f
    → comma_parts part (f ++ b',' ∷ t) ≡ (part ++ f) ∷ comma_parts [] t
unfolding comma_parts
comma_parts-more part [] t h = rw append-nil
comma_parts-more part (c ∷ f) t (k, h) =
    rw (k, comma_parts)
      (comma_parts-more (part ++ c ∷ []) f t h
        ∙ ap (λ s. s ∷ comma_parts [] t) (append_assoc part (c ∷ []) f))

pub comma_parts-joined :
    (fs : List Bytes) → fs ≢ [] → All (Lacks b',') fs → comma_parts [] (joined fs) ≡ fs
unfolding joined
comma_parts-joined [] e h = absurd (e refl)
comma_parts-joined (f ∷ []) e (l, h) = comma_parts-append [] f l
comma_parts-joined (f ∷ g ∷ fs) e (l, h) =
    comma_parts-more [] f (joined (g ∷ fs)) l
    ∙ ap (λ r. f ∷ r) (comma_parts-joined (g ∷ fs) (λ p. cc) h)

rest_words-spaced :
    (w s : Bytes) (ss : List Bytes)
    → All IsGraph s
    → w ++ s ≢ []
    → All IsWord ss
    → rest_words w (s ++ spaced ss) ≡ (w ++ s) ∷ ss
unfolding rest_words spaced
rest_words-spaced [] [] ss g e h = absurd (e refl)
rest_words-spaced (b ∷ w) [] [] g e h = rw append-nil
rest_words-spaced (b ∷ w) [] (s ∷ ss) g e ((n, gs), h) =
    rw (append-nil w) (ap (λ r. (b ∷ w) ∷ r) (rest_words-spaced [] s ss gs n h))
rest_words-spaced [] (c ∷ s) ss (k, g) e h =
    rw (k, rest_words) (rest_words-spaced (c ∷ []) s ss g (λ p. cc) h)
rest_words-spaced (b ∷ w) (c ∷ s) ss (k, g) e h =
    rw (k, rest_words)
      (rest_words-spaced (b ∷ (w ++ c ∷ [])) s ss g (λ p. cc) h
        ∙ ap (λ v. (b ∷ v) ∷ ss) (append_assoc w (c ∷ []) s))

pub rest_words-All : (ss : List Bytes) → All IsWord ss → rest_words [] (spaced ss) ≡ ss
unfolding rest_words spaced
rest_words-All [] h = refl
rest_words-All (s ∷ ss) ((n, g), h) = rest_words-spaced [] s ss g n h

pub spaced-Stops : (ss : List Bytes) → Stops (spaced ss)
unfolding spaced
spaced-Stops [] = tt
spaced-Stops (s ∷ ss) = refl

pub not_nil_append : (s : Bytes) (c : ℕ) (t : Bytes) → s ++ c ∷ t ≢ []
not_nil_append [] c t p = cc
not_nil_append (b ∷ s) c t p = cc

pub address-IsWord :
    (ip : Bytes) (port cport : ℕ) → All IsGraph ip → IsWord (address_text ip port cport)
unfolding address_text
address-IsWord ip port cport g = (
  not_nil_append ip b':' _,
  All-append IsGraph ip (b':' ∷ (show_nat port ++ b'@' ∷ show_nat cport)) g (
    refl,
    All-append IsGraph (show_nat port) (b'@' ∷ show_nat cport)
        (digits_lack _ (show_nat-digits port)).1 (refl, (digits_lack _ (show_nat-digits cport)).1),
  ),
)
