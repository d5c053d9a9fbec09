-- ===== src/Selector/Serve.antt =====
-- The rounds of `poll_next` of src/selector.rs without memory, list and queue: an independent
-- description of what the user sees of them, the turns of the tasks one after the other.
use async_selector.Base.{
  ℕ, ◌≡◌, refl, sym, ◌∙◌, ap, Bool, true, false, Option, none, some, List, [], ◌∷◌, if◌then◌else◌,
  has, update,
}
use async_selector.Memory.{Addr, Mem}
use async_selector.Selector.{Selector}
use async_selector.Selector.Kept.{Ends}
use async_selector.Selector.Poll.{Round, no_node, skip, go_on, output, unwound, Polled}
use async_selector.Selector.Turn.{turn, left_in, round_of, Follows}
use async_selector.Task.{Task, ready, pending, Outcome, returned, panicked}

-- What the user sees of a selector: the tasks in the order of the list, the strategy,
-- and the handles that the user has.
pub record View (T S : Type 0) : Type 0 where
  pub tasks : List Addr
  pub values : Addr → Option T
  pub strategy : S
  pub handles : Addr → ℕ

abbrev pub view : {T S C : Type 0} → Selector S → Mem T C → (Addr → ℕ) → List Addr → View T S
view s m ext tasks = record {
  tasks = tasks;
  values = m.value;
  strategy = s.strategy;
  handles = ext;
}

-- What the last turn gives, or else the turns behind it.
abbrev pub ended :
    {V Output : Type 0} → Option (Outcome Output) → Polled Output × V → V → Polled Output × V
ended none rest v = rest
ended (some panicked) rest v = (panicked, v)
ended (some (returned o)) rest v = (returned (ready (some o)), v)

abbrev pub idle : {Output : Type 0} → List Addr → Polled Output
idle [] = returned (ready none)
idle (x ∷ xs) = returned pending

module _ {T S Cont Break Output : Type 0} (t : Task T S Cont Break Output) where
  abbrev pub turn_of : Addr → View T S → Option T → Option (Outcome Output) × View T S
  turn_of node v none = (none, v)
  turn_of node v (some task) =
      let d = turn t node task v.strategy v.handles in
      (
        d.ends,
        record {
          tasks = left_in d.listed node v.tasks;
          values = update v.values node d.task;
          strategy = d.strategy;
          handles = d.handles;
        },
      )

  -- A turn of the task at `node`, if it is still in the list.
  abbrev pub turn_at : Addr → View T S → Option (Outcome Output) × View T S
  turn_at node v = if has node v.tasks then turn_of node v (v.values node) else (none, v)

  -- The turns of some nodes, up to the first that gives an output or panics.
  unfoldable pub serve : List Addr → View T S → Polled Output × View T S
  serve [] v = (idle v.tasks, v)
  serve (node ∷ nodes) v =
      ended (turn_at node v).0 (serve nodes (turn_at node v).1) (turn_at node v).1

-- How the turn behind a round ended.
abbrev pub ends_of : {Output : Type 0} → Round Output → Option (Outcome Output)
ends_of no_node = none
ends_of (skip is_last) = none
ends_of (go_on is_last) = none
ends_of (output v) = some (returned v)
ends_of unwound = some panicked

ends_of-round :
    {Output : Type 0} (is_last : Bool) (e : Option (Outcome Output))
    → ends_of (round_of is_last e) ≡ e
ends_of-round is_last none = refl
ends_of-round is_last (some panicked) = refl
ends_of-round is_last (some (returned v)) = refl

pub round_of-Ends :
    {Output : Type 0} (is_last : Bool) (e : Option (Outcome Output))
    → Ends is_last (round_of is_last e)
round_of-Ends is_last none = refl
round_of-Ends is_last (some panicked) = tt
round_of-Ends is_last (some (returned v)) = tt

module _ {T S Cont Break Output : Type 0} (t : Task T S Cont Break Output) where
  -- A round shows the turn of the node that it took.
  abbrev pub Shown : Option Addr → Round Output → (v v' : View T S) → Type 0
  Shown none round v v' = v' ≡ v
  Shown (some node) round v v' =
      (ends_of round ≡ (turn_at t node v).0) × (v' ≡ (turn_at t node v).1)

  pub Follows-Shown :
      {C : Type 0} (node : Addr) (is_last : Bool) (tasks tasks' : List Addr) (m m' : Mem T C)
      (s s' : Selector S) (ext ext' : Addr → ℕ) (task : T) (round : Round Output)
      → has node tasks ≡ true
      → m.value node ≡ some task
      → Follows node is_last tasks m.value (turn t node task s.strategy ext) round s' m' ext' tasks'
      → Shown (some node) round (view s m ext tasks) (view s' m' ext' tasks')
  Follows-Shown node is_last tasks tasks' m m' s s' ext ext' task round listed filled f =
      let d = turn t node task s.strategy ext in
      let here : turn_at t node (view s m ext tasks)
          ≡ turn_of t node (view s m ext tasks) (some task) =
        simp (listed, filled) in
      let same : view s' m' ext' tasks' ≡ (turn_of t node (view s m ext tasks) (some task)).1 =
        simp (f.tasks_eq, f.value_eq, f.strategy_eq, f.handles_eq) in
      (
        ap ends_of f.round_eq ∙ ends_of-round is_last d.ends ∙ sym (ap (λ p. p.0) here),
        same ∙ sym (ap (λ p. p.1) here),
      )

  pub Shown-gone :
      {C : Type 0} (node : Addr) (is_last : Bool) (m m' : Mem T C) (s : Selector S) (ext : Addr → ℕ)
      (tasks : List Addr)
      → has node tasks ≡ false
      → m'.value ≡ m.value
      → Shown (some node) (skip is_last) (view s m ext tasks) (view s m' ext tasks)
  Shown-gone node is_last m m' s ext tasks gone same = (simp gone, simp (gone, same))
