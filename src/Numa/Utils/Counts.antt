-- ===== src/Numa/Utils/Counts.antt =====
-- How many nodes the search of the Linux branch of `node_count` finds.
use pool_memalloc.Common.{
  ℕ, zero, suc, ◌+◌, ◌≤◌, ◌<◌, ◌≡◌, refl, Bool, true, false, ltb, if◌then◌else◌, arith, Bool-cases,
  inl, inr,
}
use pool_memalloc.Numa.Utils.{LinuxCalls, linux, count_nodes, node_count}

-- The loop counts the nodes from `n` on that are there without a gap, at most `rounds`.
count_nodes-run :
    (access : ℕ → Bool) (rounds n count : ℕ)
    → (k : ℕ) × (k ≤ rounds)
      × (count_nodes access rounds n count ≡ count + k)
      × ((j : ℕ) → n ≤ j → j < n + k → access j ≡ true)
      × ((k < rounds) → access (n + k) ≡ false)
unfolding count_nodes
count_nodes-run access zero n count =
    (0, omega arith, omega arith, λ j h l. absurd (omega arith), λ h. absurd (omega arith))
count_nodes-run access (suc rounds) n count = elim (Bool-cases (access n)) [
  | inl there ↦
      let (k, le, e, all, stop) = count_nodes-run access rounds (n + 1) (count + 1) in
      rw there (
        suc k,
        omega arith,
        omega arith,
        λ j h l. ground (arith, all j, there),
        λ h. ground (arith, stop),
      )
  | inr gone ↦
      rw gone
        (0, omega arith, omega arith, λ j h l. absurd (omega arith), λ h. ground (arith, gone))
]

-- On Linux `node_count` is from 1 to 256. Where node 0 is there it is the least number of a node that is not,
-- or 256 where the first 256 are there; otherwise it is 1.
pub node_count-least :
    (calls : LinuxCalls)
    → (1 ≤ node_count (linux calls))
      × (node_count (linux calls) ≤ 256)
      × ((j : ℕ) → calls.access 0 ≡ true → j < node_count (linux calls) → calls.access j ≡ true)
      × (calls.access 0 ≡ true
          → node_count (linux calls) < 256
          → calls.access (node_count (linux calls)) ≡ false)
      × (calls.access 0 ≡ false → node_count (linux calls) ≡ 1)
unfolding node_count
node_count-least calls =
    let (k, le, e, all, stop) = count_nodes-run calls.access 256 0 0 in
    let same : count_nodes calls.access 256 0 0 ≡ k = omega arith in rw same (go k le all stop)
  where
    go :
        (k : ℕ)
        → k ≤ 256
        → ((j : ℕ) → 0 ≤ j → j < 0 + k → calls.access j ≡ true)
        → (k < 256 → calls.access (0 + k) ≡ false)
        → (1 ≤ (if ltb 0 k then k else 1))
          × ((if ltb 0 k then k else 1) ≤ 256)
          × ((j : ℕ)
              → calls.access 0 ≡ true
              → j < (if ltb 0 k then k else 1)
              → calls.access j ≡ true)
          × (calls.access 0 ≡ true
              → (if ltb 0 k then k else 1) < 256
              → calls.access (if ltb 0 k then k else 1) ≡ false)
          × (calls.access 0 ≡ false → (if ltb 0 k then k else 1) ≡ 1)
    go zero le all stop = (
      omega arith,
      omega arith,
      λ j h l. ground (arith, stop),
      λ h l. ground (arith, stop),
      λ h. refl,
    )
    go (suc k) le all stop = (
      ground arith,
      ground arith,
      λ j h l. ground (arith, all j),
      λ h l. ground (arith, stop),
      λ h. ground (arith, all 0),
    )
