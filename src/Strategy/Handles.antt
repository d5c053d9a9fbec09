-- ===== src/Strategy/Handles.antt =====
-- What futures and streams under the strategies of src/task/strategy.rs are asked for: to use only
-- handles that they have. And the calls that the strategies make.
use async_selector.Base.{
  ℕ, ◌+◌, ◌<◌, ◌≡◌, subst, sym, fun_ext, true, Option, none, some, List, [], ◌∷◌, arith, has,
  update,
}
use async_selector.Memory.{Addr}
use async_selector.Selector.Invariant.{share}
use async_selector.Selector.Permits.{Permitted, handles_after}
use async_selector.Selector.Careful.{lend, IsOwn, Fits}
use async_selector.Strategy.{Progress, map_progress, transformed}
use async_selector.Task.{clone}

-- Code that is polled and that only uses handles that it has: `Careful` without a strategy's part.
pub record CarefulPoll {T S A : Type 0} (owner : Addr → Addr) (queue stub : Addr)
    (World : (Addr → ℕ) → S → (Addr → Option T) → Type 0) (poll : Addr → T → Progress T A)
    : Type 0 where
  pub permitted :
      (tasks : List Addr) (ext : Addr → ℕ) (s : S) (values : Addr → Option T) (id : Addr) (task : T)
      → IsOwn owner queue stub id
      → has id tasks ≡ true
      → values id ≡ some task
      → World ext s values
      → Permitted owner queue stub tasks ext (lend id 1) (poll id task).events
        × World
            (handles_after ext (poll id task).events)
            s
            (update values id (some (poll id task).task))
  pub drops :
      (ext : Addr → ℕ) (s : S) (values : Addr → Option T) (id : Addr)
      → World ext s values
      → World ext s (update values id none)
  pub gains :
      (ext : Addr → ℕ) (s : S) (values : Addr → Option T) (id : Addr)
      → World ext s values
      → World (update ext id (ext id + 1)) s values

update-same :
    {T : Type 0} (values : Addr → Option T) (id : Addr) (task : T)
    → values id ≡ some task
    → update values id (some task) ≡ values
update-same values id task e = fun_ext λ a. ground arith

module _ {T S : Type 0} (owner : Addr → Addr) (queue stub : Addr)
    (World : (Addr → ℕ) → S → (Addr → Option T) → Type 0) where
  module _ {A : Type 0} (poll : Addr → T → Progress T A)
      (careful : CarefulPoll owner queue stub World poll) (tasks : List Addr) (ext : Addr → ℕ)
      (s : S) (values : Addr → Option T) (id : Addr) (task : T) (own : IsOwn owner queue stub id)
      (filled : values id ≡ some task) (world : World ext s values) where
    pub polled-Fits :
        {B : Type 0} (f : A → B)
        → has id tasks ≡ true
        → Fits owner queue stub World tasks ext
            (lend id 1)
            id
            values
            (map_progress f (poll id task) s)
    polled-Fits f listed =
        let (may, after) = careful.permitted tasks ext s values id task own listed filled world in
        record { permitted = may; world = after }

    pub silent-Fits :
        {B : Type 0} (n : ℕ) (b : B)
        → Fits owner queue stub World tasks ext (lend id n) id values (transformed task s [] b)
    silent-Fits n b = record {
      permitted = tt;
      world = subst (World ext s) (sym (update-same values id task filled)) world;
    }

    pub cloned-Fits :
        {B : Type 0} (n : ℕ) (b : B)
        → 0 < share id tasks + (ext id + lend id n id)
        → Fits owner queue stub World tasks ext
            (lend id n)
            id
            values
            (transformed task s (clone id ∷ []) b)
    cloned-Fits n b held = record {
      permitted = (
        record {
          present = own.present;
          real = own.real;
          owned = own.owned;
          held = held;
          spent = λ e. cc;
        },
        tt,
      );
      world =
          subst (World (update ext id (ext id + 1)) s) (sym (update-same values id task filled))
            (careful.gains ext s values id world);
    }
