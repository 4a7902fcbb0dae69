-- ===== src/Commands/Transaction/Flag.antt =====
-- transaction_commands.h: `is_in_multi` against the server: the commands are answered in the order
-- in which they are issued.
use mathlib.Core.List.{concat-ne-nil}
use qbm_redis.Base.{◌≡◌, refl, sym, ◌∙◌, Bool, true, false, List, [], ◌∷◌, ◌++◌}
use qbm_redis.Commands.Transaction.{Operation, multi, exec, discard, on_issue, on_reply, after_sync}

-- The server: whether the connection is in a transaction before and after a command, and whether the
-- reply is no error. EXEC ends the transaction also where it fails; DISCARD needs a transaction. A MULTI
-- inside a transaction is `RefusesMulti` below.
pub data Serves (before is_ok after : Bool) : Operation → Type 0 where
  opens : before ≡ false → is_ok ≡ true → after ≡ true → Serves before is_ok after multi
  closes : after ≡ false → Serves before is_ok after exec
  drops : is_ok ≡ before → after ≡ false → Serves before is_ok after discard

-- The flag of the client, the operations without a reply, and the state of the server.
pub record Connection : Type 0 where
  pub exec_flag : Bool
  pub pending : List Operation
  pub in_transaction : Bool

abbrev pub fresh : Connection
fresh = record { exec_flag = false; pending = []; in_transaction = false }

-- An operation is issued.
unfoldable pub issue : Operation → Connection → Connection
unfolding on_issue
issue op c = record c { exec_flag = on_issue op c.exec_flag; pending = c.pending ++ op ∷ [] }

-- The reply to `op` arrives, which leaves `ops` without a reply and the server in the state `after`.
unfoldable pub reply_to : Operation → List Operation → Bool → Bool → Connection → Connection
unfolding on_reply
reply_to op ops is_ok after c = record {
  exec_flag = on_reply op is_ok c.exec_flag;
  pending = ops;
  in_transaction = after;
}

-- A run without nested transactions.
pub data Reach : Connection → Type 0 where
  start : Reach fresh
  issued : {c : Connection} → Reach c → (op : Operation) → Reach (issue op c)
  answered :
      {c : Connection}
      → Reach c
      → (op : Operation) (ops : List Operation) (is_ok after : Bool) → c.pending ≡ op ∷ ops
      → Serves c.in_transaction is_ok after op
      → Reach (reply_to op ops is_ok after c)

-- With no reply outstanding the flag is the state of the server.
abbrev pub Agrees : Connection → Type 0
Agrees c = c.pending ≡ [] → c.exec_flag ≡ c.in_transaction

reply_to-agrees :
    (c : Connection) (op : Operation) (ops : List Operation) (is_ok after : Bool)
    → Serves c.in_transaction is_ok after op
    → (reply_to op ops is_ok after c).exec_flag ≡ after
unfolding reply_to
reply_to-agrees c multi ops is_ok after (opens b o a) = o ∙ sym a
reply_to-agrees c exec ops is_ok after (closes a) = sym a
reply_to-agrees c discard ops is_ok after (drops o a) = sym a

Reach-Agrees : {c : Connection} → Reach c → Agrees c
Reach-Agrees start e = refl
Reach-Agrees (issued {c = c} r op) e = absurd (concat-ne-nil op c.pending (unfold issue in e))
Reach-Agrees (answered {c = c} r op ops is_ok after p s) e =
    reply_to-agrees c op ops is_ok after s ∙ unfold reply_to in refl

-- In every run without a MULTI inside a transaction, whatever the order in which operations are issued
-- and replies arrive, `is_in_multi` tells whether the server is in a transaction as soon as no reply is
-- outstanding.
pub is_in_multi-agrees :
    (c : Connection) → Reach c → c.pending ≡ [] → c.exec_flag ≡ c.in_transaction
is_in_multi-agrees c r e = Reach-Agrees r e

-- The server answers a MULTI inside a transaction with an error, and stays in the transaction.
pub data RefusesMulti (before is_ok after : Bool) : Type 0 where
  refuses : before ≡ true → is_ok ≡ false → after ≡ true → RefusesMulti before is_ok after

-- A MULTI that is issued, with no reply outstanding, while the server is in a transaction: `is_in_multi`
-- told so before; when the reply has arrived, the server is still in the transaction and no reply is
-- outstanding, but the flag of a client that uses callbacks is false. That of a client that waits
-- still tells the state of the server.
pub nested_multi :
    (c : Connection) (is_ok after : Bool)
    → Reach c
    → c.pending ≡ []
    → RefusesMulti c.in_transaction is_ok after
    → let d = reply_to multi [] is_ok after (issue multi c) in
      (c.exec_flag ≡ true)
      × ((issue multi c).pending ≡ multi ∷ [])
      × (d.in_transaction ≡ true)
      × (d.exec_flag ≡ false)
      × (after_sync multi is_ok c.exec_flag ≡ after)
unfolding issue reply_to after_sync
nested_multi c is_ok after r e (refuses b o a) =
    let flag = is_in_multi-agrees c r e ∙ b in (flag, rw e, a, o, rw (o, flag, a))
