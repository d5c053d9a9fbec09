-- ===== src/Selector/New.antt =====
-- `new` of src/selector.rs.
use async_selector.Base.{
  ℕ, ◌≡◌, ◌≢◌, refl, true, false, some, [], ◌∷◌, arith, has, update, update_self, update_ne, sym,
  ◌∙◌,
}
use async_selector.Memory.{Addr, null, Mem, is_live, Live}
use async_selector.Queue.{new_receiver}
use async_selector.Selector.{Selector, new}
use async_selector.Selector.Invariant.{IsSelector}

Live-one : (strong : Addr → ℕ) (a : Addr) → a ≢ null → Live (update strong a 1) a
unfolding is_live
Live-one strong a ne = ground arith

Live-alone :
    (strong : Addr → ℕ) (stub a : Addr)
    → stub ≢ null
    → has a (stub ∷ []) ≡ true
    → Live (update strong stub 1) a
unfolding is_live
Live-alone strong stub a ne i = ground arith

module _ {T S C : Type 0} (m : Mem T C) (queue stub : Addr) (cell : C) (strategy : S)
    (ext : Addr → ℕ) where
  abbrev started : Selector S
  started = record {
    queue = record { queue = queue; stub_predecessor = null };
    list = record { front = null; len = 0 };
    strategy = strategy;
  }

  -- With an address for the stub that is not null, and one for the queue that no node names as its
  -- own, `new` does not fault and gives a well-formed selector without tasks, with only the stub in
  -- its queue and the strategy that it was given. No count of owners but the stub's changes.
  pub new-IsSelector :
      stub ≢ null
      → ((a : Addr) → m.queue a ≡ queue → ⊥)
      → (s : Selector S) × (m' : Mem T C) × (new queue stub cell strategy m ≡ some (s, m'))
        × IsSelector m' s stub (λ a. false) ext [] (stub ∷ [])
        × (s.strategy ≡ strategy)
        × (m'.strong ≡ update m.strong stub 1)
  unfolding new new_receiver
  new-IsSelector real fresh = (
    started,
    _,
    refl,
    record {
      list = record {
        forward = tt;
        backward = tt;
        distinct = tt;
        live = λ a i. cc;
        valued = λ a i. cc;
        front = refl;
        count = refl;
      };
      queue = record {
        waker = cell;
        found = update_self m.queues queue _;
        chain = (update_self m.next_enqueued stub null, tt);
        settled = refl;
        gaps = λ a g. cc;
        distinct = (refl, tt);
        live = λ a i. Live-alone m.strong stub a real i;
        stub_live = Live-one m.strong stub real;
        filled = λ e. cc;
        owned = λ a i ne. ground arith;
        marked = λ a i ne. ground arith;
        behind = λ e. refl;
      };
      owned = λ a i. cc;
      real = refl;
      counted = λ a ne own. absurd (fresh a (sym (update_ne m.queue null ne) ∙ own));
      unlinked = λ a ne own h gone. absurd (fresh a (sym (update_ne m.queue null ne) ∙ own));
      awake = λ a i on. cc;
    },
    refl,
    refl,
  )
