-- ===== src/Selector/Yields.antt =====
-- Where an output of `poll_next` (src/selector.rs) comes from, in the turns of Selector/Serve.
use async_selector.Base.{
  ◌≡◌, ◌≢◌, refl, sym, ◌∙◌, ap, subst, Bool, Bool-cases, update, inl, inr, true, false, Option,
  none, some, List, [], ◌∷◌, has, Distinct, ne_of_has, update_ne, arith, ◌==◌, if◌then◌else◌,
}
use async_selector.Memory.{Addr}
use async_selector.Selector.Poll.{Polled}
use async_selector.Selector.Turn.{without, turn, left_in}
use async_selector.Selector.Serve.{View, idle, ended, turn_of, turn_at, serve}
use async_selector.Task.{Task, ready, pending, Outcome, returned, panicked}

has-without : (a b : Addr) (xs : List Addr) → has a (without b xs) ≡ true → has a xs ≡ true
unfolding without
has-without a b [] i = i
has-without a b (x ∷ xs) i = elim (Bool-cases (b == x)) [
  | inl e ↦ ground (arith, subst (λ c. has a (if c then xs else x ∷ without b xs) ≡ true) e i)
  | inr e ↦
      let rest = subst (λ c. has a (if c then xs else x ∷ without b xs) ≡ true) e i in
      let again = has-without a b xs in grind (arith, rest)
]

Distinct-without : (b : Addr) (xs : List Addr) → Distinct xs → Distinct (without b xs)
unfolding without
Distinct-without b [] d = tt
Distinct-without b (x ∷ xs) (out, d) = elim (Bool-cases (b == x)) [
  | inl e ↦ rw e d
  | inr e ↦ rw e (
    (elim (Bool-cases (has x (without b xs))) [
      | inl i ↦ let i' = has-without x b xs i in absurd (cc)
      | inr o ↦ o
    ]),
    Distinct-without b xs d,
  )
]

pub without-gone : (b : Addr) (xs : List Addr) → Distinct xs → has b (without b xs) ≡ false
unfolding without
without-gone b [] d = refl
without-gone b (x ∷ xs) (out, d) = elim (Bool-cases (b == x)) [
  | inl e ↦ rw e (grind arith)
  | inr e ↦ rw e (let rest = without-gone b xs d in ground (arith, rest))
]

left-Distinct :
    (listed : Bool) (b : Addr) (xs : List Addr) → Distinct xs → Distinct (left_in listed b xs)
left-Distinct true b xs d = d
left-Distinct false b xs d = Distinct-without b xs d

has-left :
    (listed : Bool) (a b : Addr) (xs : List Addr)
    → has a (left_in listed b xs) ≡ true
    → has a xs ≡ true
has-left true a b xs i = i
has-left false a b xs i = has-without a b xs i

module _ {T S Cont Break Output : Type 0} (t : Task T S Cont Break Output) where
  -- A turn changes no other task, and adds none.
  turn_of-else :
      (node : Addr) (v : View T S) (a : Addr) (o : Option T)
      → a ≢ node
      → (turn_of t node v o).1.values a ≡ v.values a
  turn_of-else node v a none ne = refl
  turn_of-else node v a (some task) ne = update_ne v.values _ ne

  turn_at-else :
      (node : Addr) (v : View T S) (a : Addr)
      → a ≢ node
      → (turn_at t node v).1.values a ≡ v.values a
  turn_at-else node v a ne = elim (Bool-cases (has node v.tasks)) [
    | inl e ↦ rw e (turn_of-else node v a (v.values node) ne)
    | inr e ↦ rw e refl
  ]

  turn_of-listed :
      (node : Addr) (v : View T S) (a : Addr) (o : Option T)
      → has a (turn_of t node v o).1.tasks ≡ true
      → has a v.tasks ≡ true
  turn_of-listed node v a none i = i
  turn_of-listed node v a (some task) i =
      has-left (turn t node task v.strategy v.handles).listed a node v.tasks i

  turn_at-listed :
      (node : Addr) (v : View T S) (a : Addr)
      → has a (turn_at t node v).1.tasks ≡ true
      → has a v.tasks ≡ true
  turn_at-listed node v a i = elim (Bool-cases (has node v.tasks)) [
    | inl e ↦
        let same : turn_at t node v ≡ turn_of t node v (v.values node) = simp e in
        turn_of-listed node v a (v.values node) (subst (λ p. has a p.1.tasks ≡ true) same i)
    | inr e ↦
        let same : turn_at t node v ≡ (none, v) = simp e in
        subst (λ p. has a p.1.tasks ≡ true) same i
  ]

  turn_of-Distinct :
      (node : Addr) (v : View T S) (o : Option T)
      → Distinct v.tasks
      → Distinct (turn_of t node v o).1.tasks
  turn_of-Distinct node v none d = d
  turn_of-Distinct node v (some task) d =
      left-Distinct (turn t node task v.strategy v.handles).listed node v.tasks d

  turn_at-Distinct :
      (node : Addr) (v : View T S) → Distinct v.tasks → Distinct (turn_at t node v).1.tasks
  turn_at-Distinct node v d = elim (Bool-cases (has node v.tasks)) [
    | inl e ↦ rw e (turn_of-Distinct node v (v.values node) d)
    | inr e ↦ rw e d
  ]

  -- A node that gives an output is in the list.
  turn_at-some :
      (node : Addr) (v v' : View T S) (o : Output)
      → turn_at t node v ≡ (some (returned o), v')
      → has node v.tasks ≡ true
  turn_at-some node v v' o gives = elim (Bool-cases (has node v.tasks)) [
    | inl e ↦ e
    | inr e ↦
        let same : turn_at t node v ≡ (none, v) = simp e in
        let no : none ≡ some (returned o) = ap (λ p. p.0) (sym same ∙ gives) in absurd (cc)
  ]

  -- The turn that gave an output: of a task that was in the list, with the value that it had.
  pub record Gave (nodes : List Addr) (v v' : View T S) (o : Output) : Type 0 where
    pub node : Addr
    pub before : View T S
    pub taken : has node nodes ≡ true
    pub listed : has node v.tasks ≡ true
    pub still : has node before.tasks ≡ true
    pub unique : Distinct before.tasks
    pub same : before.values node ≡ v.values node
    pub gives : turn_at t node before ≡ (some (returned o), v')

  abbrev pub Came : List Addr → View T S → Polled Output → View T S → Type 0
  Came nodes v panicked v' = Unit
  Came nodes v (returned pending) v' = Unit
  Came nodes v (returned (ready none)) v' = Unit
  Came nodes v (returned (ready (some o))) v' = Gave nodes v v' o

  idle-Came : (v : View T S) (xs : List Addr) → Came [] v (idle xs) v
  idle-Came v [] = tt
  idle-Came v (x ∷ xs) = tt

  later-Came :
      (node : Addr) (nodes : List Addr) (v v₁ v' : View T S) (result : Polled Output)
      → has node nodes ≡ false
      → v₁ ≡ (turn_at t node v).1
      → Came nodes v₁ result v'
      → Came (node ∷ nodes) v result v'
  later-Came node nodes v v₁ v' panicked out step came = tt
  later-Came node nodes v v₁ v' (returned pending) out step came = tt
  later-Came node nodes v v₁ v' (returned (ready none)) out step came = tt
  later-Came node nodes v v₁ v' (returned (ready (some o))) out step g = record {
    node = g.node;
    before = g.before;
    taken = let taken = g.taken in ground (arith, taken);
    listed = turn_at-listed node v g.node (subst (λ u. has g.node u.tasks ≡ true) step g.listed);
    still = g.still;
    unique = g.unique;
    same =
        g.same
        ∙ ap (λ u. u.values g.node) step
        ∙ turn_at-else node v g.node (ne_of_has nodes g.taken out);
    gives = g.gives;
  }

  first-Came :
      (node : Addr) (nodes : List Addr) (v : View T S) (step : Option (Outcome Output) × View T S)
      → has node nodes ≡ false
      → Distinct v.tasks
      → turn_at t node v ≡ step
      → Came nodes step.1 (serve t nodes step.1).0 (serve t nodes step.1).1
      → Came
          (node ∷ nodes)
          v
          (ended step.0 (serve t nodes step.1) step.1).0
          (ended step.0 (serve t nodes step.1) step.1).1
  first-Came node nodes v (none, v₁) out unique e came =
      later-Came node nodes v v₁ (serve t nodes v₁).1 (serve t nodes v₁).0 out
        (sym (ap (λ p. p.1) e)) came
  first-Came node nodes v (some panicked, v₁) out unique e came = tt
  first-Came node nodes v (some (returned o), v₁) out unique e came = record {
    node = node;
    before = v;
    taken = ground arith;
    listed = turn_at-some node v v₁ o e;
    still = turn_at-some node v v₁ o e;
    unique = unique;
    same = refl;
    gives = e;
  }

  pub serve-Came :
      (nodes : List Addr) (v : View T S)
      → Distinct nodes
      → Distinct v.tasks
      → Came nodes v (serve t nodes v).0 (serve t nodes v).1
  unfolding serve
  serve-Came [] v d unique = idle-Came v v.tasks
  serve-Came (node ∷ nodes) v (out, d) unique =
      first-Came node nodes v (turn_at t node v) out unique refl
        (serve-Came nodes (turn_at t node v).1 d (turn_at-Distinct node v unique))

  -- The turn of a task that gave an output.
  pub Gave-turn :
      (nodes : List Addr) (v v' : View T S) (o : Output) (g : Gave nodes v v' o)
      → (task : T) × (v.values g.node ≡ some task)
        × ((turn t g.node task g.before.strategy g.before.handles).ends ≡ some (returned o))
        × (v' ≡ record {
          tasks =
              left_in
                (turn t g.node task g.before.strategy g.before.handles).listed
                g.node
                g.before.tasks;
          values =
              update g.before.values g.node
                (turn t g.node task g.before.strategy g.before.handles).task;
          strategy = (turn t g.node task g.before.strategy g.before.handles).strategy;
          handles = (turn t g.node task g.before.strategy g.before.handles).handles;
        })
  Gave-turn nodes v v' o g =
      let still = g.still in
      let here : turn_at t g.node g.before ≡ turn_of t g.node g.before (g.before.values g.node) =
        simp still in
      by_value (g.before.values g.node) refl (sym here ∙ g.gives)
    where
      by_value :
          (old : Option T)
          → g.before.values g.node ≡ old
          → turn_of t g.node g.before old ≡ (some (returned o), v')
          → (task : T) × (v.values g.node ≡ some task)
            × ((turn t g.node task g.before.strategy g.before.handles).ends ≡ some (returned o))
            × (v' ≡ record {
              tasks =
                  left_in
                    (turn t g.node task g.before.strategy g.before.handles).listed
                    g.node
                    g.before.tasks;
              values =
                  update g.before.values g.node
                    (turn t g.node task g.before.strategy g.before.handles).task;
              strategy = (turn t g.node task g.before.strategy g.before.handles).strategy;
              handles = (turn t g.node task g.before.strategy g.before.handles).handles;
            })
      by_value none e gives = let no : none ≡ some (returned o) = ap (λ p. p.0) gives in absurd (cc)
      by_value (some task) e gives =
          (task, sym g.same ∙ e, ap (λ p. p.0) gives, sym (ap (λ p. p.1) gives))
