-- ===== src/Queue/System/Owners.antt =====
-- The owners of the nodes of a queue of src/queue.rs, by the threads that have handles.
use native.Mathlib.Decide.{ℕ_discrete}
use async_selector.Base.{
  if◌then◌else◌, ◌≡◌, ◌≢◌, ℕ, ◌+◌, ◌-◌, ◌<◌, sym, ◌∙◌, ap, subst, arith, true, false, List, [], ◌∷◌,
  ◌++◌, has, has-append, share, update,
}
use async_selector.Memory.{Addr, null}
use async_selector.Queue.System.{Holder, nobody, borrower, producer, taker}

-- The handle that a thread has set aside for what it is about to do with the node.
abbrev pub in_hand : Holder → ℕ
in_hand nobody = 0
in_hand borrower = 1
in_hand producer = 1
in_hand taker = 1

-- The queue, the thread that has acquired the flag and the other handles are all the owners of a
-- node; and the handles are of nodes of this queue.
pub record Owners (strong : Addr → ℕ) (owner : Addr → Addr) (holder : Addr → Holder)
    (handles : Addr → ℕ) (queue stub : Addr) (order : List Addr) : Type 0 where
  pub counted :
      (a : Addr)
      → a ≢ stub
      → owner a ≡ queue
      → strong a ≡ share a order + in_hand (holder a) + handles a
  pub present : (a : Addr) → 0 < handles a → a ≢ null
  pub real : (a : Addr) → 0 < handles a → a ≢ stub
  pub owned : (a : Addr) → 0 < handles a → owner a ≡ queue

module _ {strong : Addr → ℕ} {owner : Addr → Addr} {holder : Addr → Holder} {handles : Addr → ℕ}
    {queue stub : Addr} {order : List Addr}
    (o : Owners strong owner holder handles queue stub order) (node : Addr) where
  -- A handle is set aside.
  pub claimed-Owners :
      (h : Holder)
      → 0 < handles node
      → in_hand (holder node) ≡ 0
      → in_hand h ≡ 1
      → Owners strong owner
          (update holder node h)
          (update handles node (handles node - 1))
          queue
          stub
          order
  claimed-Owners h held free one = record {
    counted = λ a real own. let c = o.counted a real own in ground arith;
    present = λ a i. o.present a (ground arith);
    real = λ a i. o.real a (ground arith);
    owned = λ a i. o.owned a (ground arith);
  }

  -- The node joins the queue with the handle that was set aside.
  pub joined-Owners :
      has node order ≡ false
      → in_hand (holder node) ≡ 1
      → Owners
          (strong)
          (owner)
          (update holder node nobody)
          (handles)
          queue
          stub
          (order ++ node ∷ [])
  joined-Owners out one = record {
    counted = λ a real own.
        let c = o.counted a real own in ground (arith, has-append a order (node ∷ []));
    present = λ a i. o.present a (i);
    real = λ a i. o.real a (i);
    owned = λ a i. o.owned a (i);
  }

  -- The queue with another order of the same nodes.
  pub left-Owners :
      (order' : List Addr)
      → ((a : Addr) → a ≢ stub → has a order ≡ has a order')
      → Owners (strong) (owner) (holder) (handles) queue stub (order')
  left-Owners order' same = record {
    counted = λ a real own.
        o.counted a real own
        ∙ ap (λ b. (if b then 1 else 0) + in_hand (holder a) + handles a) (same a real);
    present = λ a i. o.present a (i);
    real = λ a i. o.real a (i);
    owned = λ a i. o.owned a (i);
  }

  -- The node leaves the queue, into the hand of the receiver.
  pub taken-Owners :
      (order' : List Addr)
      → has node order ≡ true
      → has node order' ≡ false
      → in_hand (holder node) ≡ 0
      → ((a : Addr) → a ≢ stub → a ≢ node → has a order ≡ has a order')
      → Owners (strong) (owner) (update holder node taker) (handles) queue stub (order')
  taken-Owners order' inside out free others = record {
    counted = λ a real own. elim (ℕ_discrete a node) [
      | yes e ↦
          let c = o.counted a real own in
          let inside' = subst (λ b. has b order ≡ true) (sym e) inside in
          let out' = subst (λ b. has b order' ≡ false) (sym e) out in
          let free' = subst (λ b. in_hand (holder b) ≡ 0) (sym e) free in ground arith
      | no ne ↦ let c = o.counted a real own in let same = others a real ne in ground arith
    ];
    present = λ a i. o.present a (i);
    real = λ a i. o.real a (i);
    owned = λ a i. o.owned a (i);
  }

  -- A handle is cloned.
  pub cloned-Owners :
      0 < handles node
      → Owners
          (update strong node (strong node + 1))
          (owner)
          (holder)
          (update handles node (handles node + 1))
          queue
          stub
          (order)
  cloned-Owners held = record {
    counted = λ a real own. let c = o.counted a real own in ground arith;
    present = λ a i. o.present a (ground arith);
    real = λ a i. o.real a (ground arith);
    owned = λ a i. o.owned a (ground arith);
  }

  -- A handle is dropped.
  pub dropped-Owners :
      0 < handles node
      → Owners
          (update strong node (strong node - 1))
          (owner)
          (holder)
          (update handles node (handles node - 1))
          queue
          stub
          (order)
  dropped-Owners held = record {
    counted = λ a real own. let c = o.counted a real own in ground arith;
    present = λ a i. o.present a (ground arith);
    real = λ a i. o.real a (ground arith);
    owned = λ a i. o.owned a (ground arith);
  }

  -- The handle that was borrowed is cloned for the queue, and given back.
  pub lent-Owners :
      in_hand (holder node) ≡ 1
      → node ≢ null
      → node ≢ stub
      → owner node ≡ queue
      → Owners
          (update strong node (strong node + 1))
          (owner)
          (update holder node producer)
          (update handles node (handles node + 1))
          queue
          stub
          (order)
  lent-Owners one present real owned = record {
    counted = λ a real' own. let c = o.counted a real' in ground arith;
    present = λ a i. let old = o.present a in ground arith;
    real = λ a i. let old = o.real a in ground arith;
    owned = λ a i. let old = o.owned a in ground arith;
  }

  -- The receiver keeps the node that it took.
  pub released-Owners :
      in_hand (holder node) ≡ 1
      → node ≢ null
      → node ≢ stub
      → owner node ≡ queue
      → Owners
          (strong)
          (owner)
          (update holder node nobody)
          (update handles node (handles node + 1))
          queue
          stub
          (order)
  released-Owners one present real owned = record {
    counted = λ a real' own. let c = o.counted a real' in ground arith;
    present = λ a i. let old = o.present a in ground arith;
    real = λ a i. let old = o.real a in ground arith;
    owned = λ a i. let old = o.owned a in ground arith;
  }

  -- The receiver drops the node that it took.
  pub discarded-Owners :
      in_hand (holder node) ≡ 1
      → Owners
          (update strong node (strong node - 1))
          (owner)
          (update holder node nobody)
          (handles)
          queue
          stub
          (order)
  discarded-Owners one = record {
    counted = λ a real own. let c = o.counted a real own in ground arith;
    present = λ a i. o.present a (i);
    real = λ a i. o.real a (i);
    owned = λ a i. o.owned a (i);
  }

  -- A node is allocated.
  pub created-Owners :
      node ≢ null
      → node ≢ stub
      → has node order ≡ false
      → in_hand (holder node) ≡ 0
      → handles node ≡ 0
      → Owners
          (update strong node 1)
          (update owner node queue)
          (holder)
          (update handles node 1)
          queue
          stub
          (order)
  created-Owners present real out free absent = record {
    counted = λ a real' own. let c = o.counted a real' in ground arith;
    present = λ a i. let old = o.present a in ground arith;
    real = λ a i. let old = o.real a in ground arith;
    owned = λ a i. let old = o.owned a in ground arith;
  }
