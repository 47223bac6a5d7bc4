-- ===== src/Bitmap/Threads/Moves.antt =====
-- The invariant of the bitmap under one move of one thread.
use mathlib.Core.Path.{subst}
use Prim.Native.Nat.{bit_or}
use pool_memalloc.Common.{
  ℕ, ◌+◌, ◌*◌, ◌/◌, ◌%◌, ◌^◌, ◌≤◌, ◌<◌, ◌≡◌, ◌≢◌, refl, sym, ap, ◌∙◌, Bool, true, false, not, ◌==◌,
  if◌then◌else◌, length, get_or, set, arith, ℕ_discrete, length-set,
}
use pool_memalloc.Common.Bits.{LowestZero}
use pool_memalloc.Common.Words.{full, complement}
use pool_memalloc.Common.Family.{le-total, update, total-update, update_self, update_ne}
use pool_memalloc.Bitmap.{Ptr, BitmapAllocator, find_free_bit}
use pool_memalloc.Bitmap.Valid.{allocated_in, IsValid}
use pool_memalloc.Bitmap.Word.{find_free_bit-LowestZero, index_to_ptr-eq}
use pool_memalloc.Bitmap.Dealloc.{address, address-inj, ptr_to_index-address}
use pool_memalloc.Bitmap.Threads.{
  Shared, Pc, idle, starting, claimed, freeing, hinting, System, word_index_of, fetch_and, Move,
  begin_alloc, load_hint, exhausted, load, next_word, swap, fail, put_back, hand_out, begin_dealloc,
  clear, store_hint,
}
use pool_memalloc.Bitmap.Threads.Invariant.{bit, owns, IsBlock, Knows, IsSound, global_index_lem}
use pool_memalloc.Bitmap.Threads.Word.{set-words, set-allocated, clear-words, clear-allocated}

module _ {a : BitmapAllocator} (v : IsValid a) {n : ℕ} {s : System} (is : IsSound a n s) (i : ℕ)
    (h : i < n) where
  abbrev after : Shared → Pc → System
  after m p = record { mem = m; pc = update s.pc i p }

  assemble :
      (m : Shared) (p : Pc)
      → length m.bitmap ≡ a.word_count
      → ((k : ℕ) → get_or m.bitmap k 0 < 2 ^ 64)
      → m.hint ≤ a.word_count
      → ((j : ℕ)
          → bit (allocated_in m.bitmap j) + bit (s.mem.held (address a j)) + owns a j (s.pc i)
            ≡ bit (allocated_in s.mem.bitmap j) + bit (m.held (address a j)) + owns a j p)
      → ((q : Ptr) → m.held q ≡ true → IsBlock a q)
      → Knows a p
      → IsSound a n (after m p)
  assemble m p sized words hinted same known mine = record {
    sized = sized;
    words = words;
    hinted = hinted;
    once = λ j. omega (arith, total-update (owns a j) n s.pc i p h, same j, is.once j);
    known = known;
    knows = λ j k. elim (ℕ_discrete j i) [
      | yes e ↦ rw (e, update_self s.pc i p) mine
      | no ne ↦ rw (update_ne s.pc i j p ne) (is.knows j k)
    ];
  }

  -- Only the hint and the thread's place in the code change.
  quiet :
      (hint : ℕ) (p : Pc)
      → hint ≤ a.word_count
      → ((j : ℕ) → owns a j p ≡ owns a j (s.pc i))
      → Knows a p
      → IsSound a n (after (record (s.mem) { hint = hint }) p)
  quiet hint p low same mine =
      assemble (record (s.mem) { hint = hint }) p is.sized is.words low (λ j. omega (arith, same j))
        is.known mine

  -- A thread clears a bit that is its own.
  clears :
      (w b : ℕ) (p : Pc)
      → w < a.word_count
      → b < 64
      → ((j : ℕ) → owns a j (s.pc i) ≡ bit (w * 64 + b == j))
      → ((j : ℕ) → owns a j p ≡ 0)
      → Knows a p
      → IsSound a n (after (fetch_and s.mem w (complement (2 ^ b))) p)
  clears w b p hw hb own gone mine =
      assemble (fetch_and s.mem w (complement (2 ^ b))) p
        (omega (arith, is.sized, length-set {0} s.mem.bitmap w))
        (clear-words s.mem.bitmap w b (omega (arith, is.sized)) hb is.words) is.hinted
        (λ j. ground (
          arith,
          own j,
          gone j,
          is.once j,
          le-total (owns a j) n s.pc i h,
          clear-allocated s.mem.bitmap w b (omega (arith, is.sized)) hb is.words j,
        ))
        is.known mine

  -- A thread sets the lowest clear bit of a word that has one.
  claims :
      (w : ℕ)
      → w < a.word_count
      → get_or s.mem.bitmap w 0 ≢ full
      → ((j : ℕ) → owns a j (s.pc i) ≡ 0)
      → IsSound a n (
          after
            (record (s.mem) {
              bitmap =
                  set s.mem.bitmap w (
                    bit_or (get_or s.mem.bitmap w 0) (2 ^ find_free_bit (get_or s.mem.bitmap w 0)));
            })
            (claimed w (find_free_bit (get_or s.mem.bitmap w 0))))
  claims w hw open_ gone =
      assemble _ (claimed w b) (omega (arith, is.sized, length-set {0} s.mem.bitmap w))
        (set-words s.mem.bitmap w b (omega (arith, is.sized)) low.within is.words) is.hinted
        (λ j. ground (
          arith,
          gone j,
          free,
          set-allocated s.mem.bitmap w b (omega (arith, is.sized)) low.within is.words j,
        ))
        is.known (hw, low.within)
    where
      b : ℕ
      b = find_free_bit (get_or s.mem.bitmap w 0)

      low : LowestZero 64 (get_or s.mem.bitmap w 0) b
      low = find_free_bit-LowestZero (get_or s.mem.bitmap w 0) (omega (arith, is.words w))

      free : allocated_in s.mem.bitmap (w * 64 + b) ≡ false
      free =
          let q : (w * 64 + b) / 64 ≡ w = omega (arith, low.within) in
          let r : (w * 64 + b) % 64 ≡ b = omega (arith, low.within) in rw (q, r) low.zero_bit

  -- A block changes hands between the program and the thread.
  hands :
      (hint : ℕ) (index : ℕ) (b : Bool) (p : Pc)
      → hint ≤ a.word_count
      → index < a.block_count
      → s.mem.held (address a index) ≡ not b
      → ((j : ℕ) → owns a j (s.pc i) ≡ (if b then bit (index == j) else 0))
      → ((j : ℕ) → owns a j p ≡ (if b then 0 else bit (index == j)))
      → Knows a p
      → IsSound a n
          (after (record (s.mem) { hint = hint; held = update s.mem.held (address a index) b }) p)
  hands hint index b p low inside was own own' mine =
      assemble _ p is.sized is.words low
        (λ j.
          ground (arith, own j, own' j, was, address-inj v j index, ap (λ (k : ℕ). address a k)))
        (λ q e. elim (ℕ_discrete q (address a index)) [
          | yes here ↦ (index, inside, here)
          | no away ↦ is.known q (sym (update_ne s.mem.held (address a index) q b away) ∙ e)
        ])
        mine

  Knows-at : {q : Pc} → s.pc i ≡ q → Knows a q
  Knows-at e = subst (Knows a) e (is.knows i h)

  owns-at : {q : Pc} → s.pc i ≡ q → (j : ℕ) → owns a j (s.pc i) ≡ owns a j q
  owns-at e j = ap (owns a j) e

  slot-lt : (start probe : ℕ) → probe < a.word_count → word_index_of a start probe < a.word_count
  slot-lt start probe l = omega arith

  same_bit : (index j : ℕ) → bit (address a index == address a j) ≡ bit (index == j)
  same_bit index j = ground (arith, address-inj v index j, ap (λ (k : ℕ). address a k))

  -- Every move keeps the invariant.
  pub Move-Sound :
      {q p : Pc} {m : Shared} → s.pc i ≡ q → Move a s.mem q m p → IsSound a n (after m p)
  Move-Sound e begin_alloc = quiet s.mem.hint starting is.hinted (λ j. sym (owns-at e j)) tt
  Move-Sound e load_hint = quiet s.mem.hint _ is.hinted (λ j. sym (owns-at e j)) tt
  Move-Sound e (exhausted all) = quiet s.mem.hint idle is.hinted (λ j. sym (owns-at e j)) tt
  Move-Sound e (load left) =
      quiet s.mem.hint _ is.hinted (λ j. sym (owns-at e j)) (ground arith, is.words _)
  Move-Sound e next_word = quiet s.mem.hint _ is.hinted (λ j. sym (owns-at e j)) tt
  Move-Sound e (swap {start} {probe} {word} open_ now) = rw (sym now) (
      claims (word_index_of a start probe) (slot-lt start probe ((Knows-at e).0))
        (λ c. open_ (sym now ∙ c)) (owns-at e))
  Move-Sound e (fail {start} {probe} open_) =
      quiet s.mem.hint _ is.hinted (λ j. sym (owns-at e j)) ((Knows-at e).0, is.words _)
  Move-Sound e (put_back {i = w} {b = b} past) =
      let (hw, hb) = Knows-at e in clears w b idle hw hb (owns-at e) (λ j. refl) tt
  Move-Sound e (hand_out {i = w} {b = b} inside) =
      let (hw, hb) = Knows-at e in
      let same = global_index_lem v w b hw hb in
      let l : w * 64 + b < a.block_count = ground (arith, same) in
      rw (same, index_to_ptr-eq v (w * 64 + b) l)
        (hands w (w * 64 + b) true idle (omega arith) l
          (ground (
            arith,
            is.once (w * 64 + b),
            owns-at e (w * 64 + b),
            le-total (owns a (w * 64 + b)) n s.pc i h,
          ))
          (owns-at e) (λ j. refl) tt)
  Move-Sound e (begin_dealloc ptr have) =
      let (index, l, same) = is.known ptr have in
      rw same (
        hands s.mem.hint index false (freeing (address a index)) is.hinted l (rw same at have)
          (owns-at e) (same_bit index) (index, l, refl))
  Move-Sound e (clear {ptr}) =
      let (index, l, same) = Knows-at e in
      rw (same, ptr_to_index-address v index l)
        (clears (index / 64) (index % 64) (hinting (index / 64)) (omega (arith, v.enough))
          (omega arith)
          (λ j.
            owns-at e j
            ∙ ap (λ (q : Ptr). bit (q == address a j)) same
            ∙ same_bit index j
            ∙ ap (λ (k : ℕ). bit (k == j)) (omega arith))
          (λ j. refl) (omega (arith, v.enough)))
  Move-Sound e (store_hint {i = w}) = quiet w idle (Knows-at e) (λ j. sym (owns-at e j)) tt
