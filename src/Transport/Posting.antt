-- ===== src/Transport/Posting.antt =====
-- What postBytes does to the client.
use server_monitor.Common.{ℕ, ◌≤◌, ◌<◌, ◌≡◌, arith, false, Option, none, some, ◌∷◌}
use server_monitor.Spool.{Entry}
use server_monitor.Transport.{
  Ack, Answer, unreachable, response, SendError, Client, handle_ack, post_bytes,
}

module _ {Bucket : Type 0} where
  -- What postBytes does to the lists of a client.
  pub record Posted (e : Entry) (c c' : Client Bucket) (err : Option SendError) : Type 0 where
    pub same_spool : c'.spool ≡ c.spool
    pub same_refused : c'.refused ≡ c.refused
    pub taken : c'.delivered ≡ (elim err [ none ↦ e ∷ c.delivered | some _ ↦ c.delivered ])

  handle_ack-same :
      (ack : Ack) (c : Client Bucket)
      → ((handle_ack ack c).spool ≡ c.spool)
        × ((handle_ack ack c).refused ≡ c.refused)
        × ((handle_ack ack c).delivered ≡ c.delivered)
  unfolding handle_ack
  handle_ack-same ack c = (ground arith, ground arith, ground arith)

  pub post_bytes-Posted :
      (answer : Answer) (e : Entry) (c : Client Bucket)
      → Posted e c (post_bytes answer e c).0 (post_bytes answer e c).1
  unfolding post_bytes
  post_bytes-Posted unreachable e c = ground arith
  post_bytes-Posted (response status ack) e c = ground (arith, handle_ack-same ack c)

  pub handle_ack-deregistered :
      (ack : Ack) (c : Client Bucket) → (handle_ack ack c).deregistered ≡ c.deregistered
  unfolding handle_ack
  handle_ack-deregistered ack c = ground arith

  pub post_bytes-accepted :
      (status : ℕ) (ack : Ack) (e : Entry) (c : Client Bucket)
      → 200 ≤ status
      → status < 300
      → c.deregistered ≡ false
      → post_bytes (response status ack) e c
        ≡ (record (handle_ack ack c) { delivered = e ∷ c.delivered }, none)
  unfolding post_bytes
  post_bytes-accepted status ack e c lo hi n = ground (arith, n)
