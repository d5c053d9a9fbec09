-- ===== src/Selector/Turn.antt =====
-- What one turn of a task comes to in `poll_next` of src/selector.rs, without memory, list and queue:
-- an independent description of the loop's body.
use async_selector.Selector.Permits.{handles_after}
use async_selector.Base.{
  ℕ, ◌+◌, ◌≡◌, refl, sym, ◌∙◌, ap, Bool, true, false, Option, none, some, List, [], ◌∷◌, ◌++◌, ◌==◌,
  if◌then◌else◌, has, update, Bool-cases, inl, inr, update_again, update_there, has-append, eq→==,
  arith,
}
use async_selector.Memory.{Addr, Mem}
use async_selector.Selector.{Selector}
use async_selector.Selector.Guard.{IsWithout}
use async_selector.Selector.Poll.{Round, go_on, output, unwound}
use async_selector.Task.{
  Task, Poll, ready, pending, ControlFlow, continue, break, Finished, Outcome, returned, panicked,
}

-- How a turn ends: `none` if the loop goes on, otherwise with an output or a panic. Whether the task
-- stays in the list, what is then at its node, the strategy, and the handles of the user.
pub record Turned (T S Output : Type 0) : Type 0 where
  pub ends : Option (Outcome Output)
  pub listed : Bool
  pub task : Option T
  pub strategy : S
  pub handles : Addr → ℕ

-- Behind `transform_cont`.
abbrev pub continued :
    {T S Output : Type 0} → T → S → (Addr → ℕ) → Outcome (Option Output) → Turned T S Output
continued task s ext panicked = record {
  ends = some panicked;
  listed = false;
  task = none;
  strategy = s;
  handles = ext;
}
continued task s ext (returned none) = record {
  ends = none;
  listed = true;
  task = some task;
  strategy = s;
  handles = ext;
}
continued task s ext (returned (some v)) = record {
  ends = some (returned v);
  listed = true;
  task = some task;
  strategy = s;
  handles = ext;
}

-- Behind `transform_break`.
abbrev pub broken :
    {T S Output : Type 0}
    → Addr
    → T
    → S
    → (Addr → ℕ)
    → Outcome (Finished Output)
    → Turned T S Output
broken node task s ext panicked = record {
  ends = some panicked;
  listed = false;
  task = none;
  strategy = s;
  handles = ext;
}
broken node task s ext (returned f) = record {
  ends = elim f.output [ none ↦ none | some v ↦ some (returned v) ];
  listed = false;
  task = if f.keeps then some task else none;
  strategy = s;
  handles = if f.keeps then update ext node (ext node + 1) else ext;
}

module _ {T S Cont Break Output : Type 0} (t : Task T S Cont Break Output) (node : Addr) where
  -- Behind `poll_progress`.
  abbrev pub polled :
      T → S → (Addr → ℕ) → Outcome (Poll (ControlFlow Break Cont)) → Turned T S Output
  polled task s ext panicked = record {
    ends = some panicked;
    listed = false;
    task = none;
    strategy = s;
    handles = ext;
  }
  polled task s ext (returned pending) = record {
    ends = none;
    listed = true;
    task = some task;
    strategy = s;
    handles = ext;
  }
  polled task s ext (returned (ready (continue v))) =
      let d = t.transform_cont node task s v in
      continued d.task d.strategy (handles_after ext d.events) d.outcome
  polled task s ext (returned (ready (break v))) =
      let d = t.transform_break node task s v in
      broken node d.task d.strategy (handles_after ext d.events) d.outcome

  abbrev pub turn : T → S → (Addr → ℕ) → Turned T S Output
  turn task s ext =
      let c = t.poll_progress node task s in
      polled c.task c.strategy (handles_after ext c.events) c.outcome

-- A list without the first place of an address.
unfoldable pub without : Addr → List Addr → List Addr
without a [] = []
without a (x ∷ xs) = if a == x then xs else x ∷ without a xs

abbrev pub left_in : Bool → Addr → List Addr → List Addr
left_in listed node tasks = if listed then tasks else without node tasks

-- The round of the loop that a turn comes to.
abbrev pub round_of : {Output : Type 0} → (is_last : Bool) → Option (Outcome Output) → Round Output
round_of is_last none = go_on is_last
round_of is_last (some panicked) = unwound
round_of is_last (some (returned v)) = output v

-- A round that does what the turn says.
pub record Follows {T S C Output : Type 0} (node : Addr) (is_last : Bool) (tasks : List Addr)
    (values : Addr → Option T) (turned : Turned T S Output) (round : Round Output) (s : Selector S)
    (m : Mem T C) (ext' : Addr → ℕ) (tasks' : List Addr) : Type 0 where
  pub round_eq : round ≡ round_of is_last turned.ends
  pub tasks_eq : tasks' ≡ left_in turned.listed node tasks
  pub value_eq : m.value ≡ update values node turned.task
  pub strategy_eq : s.strategy ≡ turned.strategy
  pub handles_eq : ext' ≡ turned.handles

-- The same behind a change of the task.
pub Follows-behind :
    {T S C Output : Type 0} {node : Addr} {is_last : Bool} {tasks : List Addr}
    {before values : Addr → Option T} {turned : Turned T S Output} (o : Option T)
    {round : Round Output} {s : Selector S} {m : Mem T C} {ext' : Addr → ℕ} {tasks' : List Addr}
    → values ≡ update before node o
    → Follows node is_last tasks values turned round s m ext' tasks'
    → Follows node is_last tasks before turned round s m ext' tasks'
Follows-behind {node} {before} {turned} o e f = record {
  round_eq = f.round_eq;
  tasks_eq = f.tasks_eq;
  value_eq =
      f.value_eq ∙ ap (λ vs. update vs node turned.task) e ∙ update_again before node o turned.task;
  strategy_eq = f.strategy_eq;
  handles_eq = f.handles_eq;
}

pub without-middle :
    (us vs : List Addr) (a : Addr) → has a us ≡ false → without a (us ++ a ∷ vs) ≡ us ++ vs
unfolding without
without-middle [] vs a out = simp (eq→== {a = a} refl)
without-middle (u ∷ us) vs a out = elim (Bool-cases (a == u)) [
  | inl e ↦ absurd (grind arith)
  | inr e ↦ let rest = without-middle us vs a (grind arith) in simp (e, rest)
]

pub IsWithout-without :
    (id : Addr) (tasks rest : List Addr) → IsWithout id tasks rest → rest ≡ without id tasks
IsWithout-without id tasks rest is =
    is.left
    ∙ sym (
        ap (without id) is.whole
        ∙ without-middle is.before is.behind id (
            ground (arith, has-append id is.before is.behind, ap (has id) (sym is.left) ∙ is.gone)))

-- A turn that leaves the task in the list and as it is.
pub Follows-still :
    {T S C Output : Type 0} (node : Addr) (is_last : Bool) (tasks : List Addr) (m : Mem T C)
    (turned : Turned T S Output) (task : T) (s : Selector S) (ext : Addr → ℕ)
    → m.value node ≡ some task
    → Follows node is_last tasks m.value
        (record {
          ends = turned.ends;
          listed = true;
          task = some task;
          strategy = s.strategy;
          handles = ext;
        })
        (round_of is_last turned.ends)
        s
        m
        ext
        tasks
Follows-still node is_last tasks m turned task s ext filled = record {
  round_eq = refl;
  tasks_eq = refl;
  value_eq = sym (update_there m.value node (some task) filled);
  strategy_eq = refl;
  handles_eq = refl;
}
