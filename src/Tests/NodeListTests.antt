-- ===== src/Tests/NodeListTests.antt =====
-- The laws of the list and of its cursors (src/list.rs) on the sample.
use async_selector.Base.{
  ℕ, arith, ◌==◌, if◌then◌else◌, ◌≡◌, refl, Option, none, some, [], ◌∷◌, update, has,
}
use async_selector.Memory.{Addr, Mem}
use async_selector.NodeList.{NodeList, remove_unchecked, attach, drop_list}
use async_selector.Memory.Release.{released}
use async_selector.NodeList.Drop.{drop_list-IsList}
use async_selector.NodeList.Invariant.{IsList}
use async_selector.NodeList.Unlink.{unlinked, remove_unchecked-IsList}
use async_selector.NodeList.Append.{appended, lengthened, attach-IsList}
use async_selector.NodeList.Cursor.{Cursor, cursor, pop_front, pop_back, remove_front, remove_back}
use async_selector.NodeList.Cursor.Place.{IsCursor}
use async_selector.NodeList.Cursor.Laws.{
  pop_front-cons, pop_back-snoc, remove_front-cons, remove_back-snoc, done-stays, cursor-IsCursor,
}
use async_selector.Tests.Sample.{
  memory, two_nodes, two_nodes-IsList, node_4-Live, start, start-IsCursor, done, done-IsCursor,
}

-- The node at 4 with a value.
abbrev filled : Mem ℕ (Option ℕ)
filled = record memory { value = update memory.value 4 (some 40) }

filled-IsList : IsList filled two_nodes (2 ∷ 3 ∷ [])
filled-IsList = record {
  forward = (refl, (refl, tt));
  backward = (refl, (refl, tt));
  distinct = (refl, (refl, tt));
  live = two_nodes-IsList.live;
  valued = λ a i. (if a == 2 then 20 else 30, ground arith);
  front = refl;
  count = refl;
}

remove_unchecked-IsList_example :
    (l : NodeList) × (remove_unchecked two_nodes 3 memory ≡ some ((3, l), unlinked memory 3))
    × IsList (unlinked memory 3) l (2 ∷ [])
remove_unchecked-IsList_example =
    remove_unchecked-IsList memory two_nodes (2 ∷ []) [] 3 two_nodes-IsList

attach-IsList_example :
    (attach two_nodes 4 filled ≡ some (lengthened two_nodes 4, appended filled two_nodes 4))
    × IsList (appended filled two_nodes 4) (lengthened two_nodes 4) (2 ∷ 3 ∷ 4 ∷ [])
attach-IsList_example =
    attach-IsList filled two_nodes (2 ∷ 3 ∷ []) 4 filled-IsList node_4-Live refl (40, refl)

pop_front-cons_example :
    (c : Cursor) × (pop_front start memory ≡ some ((some 2, c), memory))
    × IsCursor memory c (2 ∷ []) (3 ∷ []) []
pop_front-cons_example = pop_front-cons memory start [] (3 ∷ []) [] 2 start-IsCursor

pop_back-snoc_example :
    (c : Cursor) × (pop_back start memory ≡ some ((some 3, c), memory))
    × IsCursor memory c [] (2 ∷ []) (3 ∷ [])
pop_back-snoc_example = pop_back-snoc memory start [] (2 ∷ []) [] 3 start-IsCursor

remove_front-cons_example :
    (c : Cursor) × (remove_front start memory ≡ some ((some 2, c), unlinked memory 2))
    × IsCursor (unlinked memory 2) c [] (3 ∷ []) []
remove_front-cons_example = remove_front-cons memory start [] (3 ∷ []) [] 2 start-IsCursor

remove_back-snoc_example :
    (c : Cursor) × (remove_back start memory ≡ some ((some 3, c), unlinked memory 3))
    × IsCursor (unlinked memory 3) c [] (2 ∷ []) []
remove_back-snoc_example = remove_back-snoc memory start [] (2 ∷ []) [] 3 start-IsCursor

done-stays_example :
    (pop_front done memory ≡ some ((none, done), memory))
    × (pop_back done memory ≡ some ((none, done), memory))
    × (remove_front done memory ≡ some ((none, done), memory))
    × (remove_back done memory ≡ some ((none, done), memory))
done-stays_example = done-stays memory done (2 ∷ 3 ∷ []) [] done-IsCursor

cursor-IsCursor_example :
    (c : Cursor) × (cursor two_nodes memory ≡ some (c, memory))
    × IsCursor memory c [] (2 ∷ 3 ∷ []) []
cursor-IsCursor_example = cursor-IsCursor memory two_nodes (2 ∷ 3 ∷ []) two_nodes-IsList

drop_list-IsList_example :
    (l : NodeList) × (m' : Mem ℕ (Option ℕ)) × (drop_list 2 two_nodes memory ≡ some (l, m'))
    × IsList m' l []
    × ((a : Addr) → m'.value a ≡ (if has a (2 ∷ 3 ∷ []) then none else memory.value a))
    × ((a : Addr) → m'.strong a ≡ released memory.strong (2 ∷ 3 ∷ []) a)
    × (m'.queues ≡ memory.queues)
    × (m'.queue ≡ memory.queue)
drop_list-IsList_example = drop_list-IsList memory two_nodes (2 ∷ 3 ∷ []) two_nodes-IsList
