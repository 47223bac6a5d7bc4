-- ===== src/Numa/Utils/Tests.antt =====
-- The queries of the operating system at three Linux nodes and two Windows nodes.
use pool_memalloc.Common.{
  ℕ, ◌≡◌, ◌≢◌, ◌<◌, ◌≤◌, refl, true, false, none, some, [], ◌∷◌, ltb, ◌==◌, if◌then◌else◌, arith,
}
use pool_memalloc.Heap.{null}
use pool_memalloc.Numa.Utils.{
  WindowsCalls, LinuxCalls, win32, linux, virtual_free, aligned_free, node_count, current_node,
  alloc_on_node, free_on_node,
}
use pool_memalloc.Numa.Utils.Counts.{node_count-least}
use pool_memalloc.Numa.Utils.Memory.{counterpart, FreesItsOwn, last, free_on_node-alloc_on_node}

abbrev three_nodes : LinuxCalls
three_nodes = record {
  access = λ n. ltb n 3;
  cpu = some 5;
  read_package = λ n. some 1;
  mmap = λ size. some 4096;
}

three : node_count (linux three_nodes) ≡ 3
unfolding node_count
three = refl

on_package : current_node (linux three_nodes) ≡ 1
unfolding current_node
on_package = refl

on_node_2 : alloc_on_node (linux three_nodes) 640 64 2 ≡ (4096, some 4)
unfolding alloc_on_node
on_node_2 = refl

-- Windows gives memory on node 0 alone.
abbrev node_0_only : WindowsCalls
node_0_only = record {
  highest_node = some 1;
  processor_node = none;
  virtual_alloc = λ size node. if node == 0 then 4096 else null;
  aligned_malloc = λ size alignment. 65536;
  virtual_free_ok = λ p. p == 4096;
}

two_nodes : node_count (win32 node_0_only) ≡ 2
unfolding node_count
two_nodes = refl

falls_back : alloc_on_node (win32 node_0_only) 640 64 1 ≡ (65536, none)
unfolding alloc_on_node
falls_back = refl

frees_twice :
    free_on_node (win32 node_0_only) 65536 640 ≡ virtual_free 65536 ∷ aligned_free 65536 ∷ []
unfolding free_on_node
frees_twice = refl

counts_three :
    (1 ≤ node_count (linux three_nodes))
    × (node_count (linux three_nodes) ≤ 256)
    × ((j : ℕ)
        → three_nodes.access 0 ≡ true
        → j < node_count (linux three_nodes)
        → three_nodes.access j ≡ true)
    × (three_nodes.access 0 ≡ true
        → node_count (linux three_nodes) < 256
        → three_nodes.access (node_count (linux three_nodes)) ≡ false)
    × (three_nodes.access 0 ≡ false → node_count (linux three_nodes) ≡ 1)
counts_three = node_count-least three_nodes

node_0_only-FreesItsOwn : FreesItsOwn (win32 node_0_only)
node_0_only-FreesItsOwn = (λ size node live. ground (arith, live), λ size alignment. refl)

free_on_node-alloc_on_node_example :
    ((alloc_on_node (win32 node_0_only) 640 64 0).0 ≢ null
      → last (free_on_node (win32 node_0_only) ((alloc_on_node (win32 node_0_only) 640 64 0).0) 640)
        ≡ some (
            counterpart (win32 node_0_only) 640 0 ((alloc_on_node (win32 node_0_only) 640 64 0).0)))
    × ((alloc_on_node (win32 node_0_only) 640 64 0).0 ≡ null
        → free_on_node (win32 node_0_only) ((alloc_on_node (win32 node_0_only) 640 64 0).0) 640
          ≡ [])
free_on_node-alloc_on_node_example =
    free_on_node-alloc_on_node (win32 node_0_only) 640 64 0 node_0_only-FreesItsOwn
