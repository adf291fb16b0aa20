-- ===== src/Emitted/Queue/Fifo.antt =====
-- The queues of the emitted C keep the order of their elements until they are full.
use demonic_c.Base.{
  ℕ, suc, ◌+◌, ◌-◌, ◌%◌, ◌≤◌, ◌<◌, ◌≡◌, ◌⊎◌, ◌∙◌, sym, ap, subst, inl, inr, refl, true, false, List,
  [], ◌∷◌, ◌++◌, Option, some, if◌then◌else◌, ltb, ◌==◌, length, get_elem?, arith,
  get_elem?-set_elem, get_elem?-length,
}
use demonic_c.Emitted.Handles.{returns, to_int, Handles, with_object, put_object}
use demonic_c.Emitted.Vec.{larger}
use demonic_c.Emitted.Queue.{
  Queue, store, store_in, grown_queue, push_in, queue_push, without_front, pop_in, queue_pop,
}
use demonic_c.Emitted.Queue.Ring.{
  ring, advance, length-ring, step_lt, advance_cases, advance-suc, ring-write, ring-none, ring-cons,
}

-- A queue that is in use, with its capacity and its elements, the oldest first.
pub record Queued (t : Handles Queue) (h c : ℕ) (xs : List ℕ) : Type 0 where
  pub queue : Queue
  pub there : get_elem? t.objects h ≡ some (some queue)
  pub size : queue.capacity ≡ c
  pub within : queue.len ≤ c
  pub front :
      (c ≡ 0) × (queue.tail ≡ 0) × (queue.head ≡ 0)
      ⊎ (queue.head < c) × (queue.tail ≡ advance c queue.head queue.len)
  pub items : ring queue.cells c queue.head queue.len ≡ xs

-- A queue with room for one more element.
record Roomy (q : Queue) (xs : List ℕ) : Type 0 where
  inside : q.head < q.capacity
  room : q.len < q.capacity
  last : q.tail ≡ advance q.capacity q.head q.len
  items : ring q.cells q.capacity q.head q.len ≡ xs

stored-Queued :
    (t : Handles Queue) (h x : ℕ) (q : Queue) {xs : List ℕ} {old : Option Queue}
    → get_elem? t.objects h ≡ some old
    → Roomy q xs
    → Queued (put_object h (some (store x q)) t) h q.capacity (xs ++ (x ∷ []))
unfolding put_object store
stored-Queued t h x q {xs} there r = record {
  queue = store x q;
  there = get_elem?-set_elem t.objects h _ (get_elem?-length t.objects h there);
  size = refl;
  within = let room : q.len < q.capacity = r.room in omega arith;
  front = inr (
    r.inside,
    ap (λ n. (n + 1) % q.capacity) r.last
        ∙ sym (
            subst
              (λ n.
                advance q.capacity q.head n ≡ (advance q.capacity q.head q.len + 1) % q.capacity)
              (omega arith) (advance-suc q.capacity q.head q.len)),
  );
  items =
      subst
        (λ n. ring (λ i. if i == q.tail then x else q.cells i) q.capacity q.head n ≡ xs ++ (x ∷ []))
        (omega arith)
        (ring-write q.cells q.capacity q.head q.len q.tail x r.inside r.room r.last
          ∙ ap (λ ys. ys ++ (x ∷ [])) r.items);
}

store_in-returns :
    (t : Handles Queue) (h x : ℕ) (q : Queue) {xs : List ℕ}
    → Roomy q xs
    → store_in h x q t ≡ returns 0 (put_object h (some (store x q)) t)
store_in-returns t h x q r =
    let (bound, _) =
      advance_cases q.capacity q.head q.len r.inside
        (let room : q.len < q.capacity = r.room in omega arith) in
    let inside : ltb q.tail q.capacity ≡ true = ground (arith, r.last, bound) in rw inside

pub Queued-len :
    (t : Handles Queue) (h c : ℕ) {xs : List ℕ} (q : Queued t h c xs) → q.queue.len ≡ length xs
Queued-len t h c q = sym (length-ring q.queue.cells c q.queue.head q.queue.len) ∙ ap length q.items

Queued-Roomy :
    (t : Handles Queue) (h c : ℕ) {xs : List ℕ} (v : Queued t h c xs)
    → length xs < c
    → Roomy v.queue xs
Queued-Roomy t h c {xs} v room = elim v.front [
  | inl (no_cells, _, _) ↦ absurd (omega arith)
  | inr (inside, last) ↦ record {
    inside = subst (λ k. v.queue.head < k) (sym v.size) inside;
    room = omega (arith, Queued-len t h c v, v.size);
    last = last ∙ ap (λ k. advance k v.queue.head v.queue.len) (sym v.size);
    items = ap (λ k. ring v.queue.cells k v.queue.head v.queue.len) v.size ∙ v.items;
  }
]

-- A queue without cells, behind its first `realloc`.
Queued-grown :
    (stale : ℕ → ℕ) (t : Handles Queue) (h c : ℕ) {xs : List ℕ} (v : Queued t h c xs)
    → c ≡ 0
    → Roomy (grown_queue stale v.queue) xs
unfolding advance
Queued-grown stale t h c {xs} v no_cells =
    let q = v.queue in
    let empty : q.len ≡ 0 = omega (arith, v.within, no_cells) in
    let size : q.capacity ≡ 0 = v.size ∙ no_cells in
    elim v.front [
      | inl (_, tail, head) ↦ record {
        inside = ground (arith, size, head);
        room = ground (arith, size, empty);
        last = tail ∙ sym (ap (λ n. advance (larger q.capacity) q.head n) empty ∙ head);
        items =
            ring-none _ (larger q.capacity) q.head q.len empty
            ∙ (sym (ring-none q.cells c q.head q.len empty) ∙ v.items);
      }
      | inr (inside, _) ↦ absurd (omega arith)
    ]

-- A push onto a queue that is not full, or onto a new one where `realloc` succeeds, puts the value behind
-- the elements of the queue.
pub queue_push-Queued :
    (stale : ℕ → ℕ) (h x c : ℕ) (t : Handles Queue) {xs : List ℕ}
    → Queued t h c xs
    → (length xs < c) ⊎ (c ≡ 0)
    → (t' : Handles Queue) × (queue_push true stale h x t ≡ returns 0 t')
      × Queued t' h (if c == 0 then 4 else c) (xs ++ (x ∷ []))
unfolding queue_push push_in with_object
queue_push-Queued stale h x c t {xs} v apart =
    let q = v.queue in
    let count : q.len ≡ length xs = Queued-len t h c v in
    let same : q.capacity ≡ c = v.size in
    elim apart [
      | inl room ↦
          let open_end : (q.len == q.capacity) ≡ false = ground arith in
          let size : q.capacity ≡ (if c == 0 then 4 else c) = ground arith in
          let r = Queued-Roomy t h c v room in
          (
            put_object h (some (store x q)) t,
            rw (v.there, open_end) (store_in-returns t h x q r),
            subst (λ k. Queued (put_object h (some (store x q)) t) h k (xs ++ (x ∷ []))) size
                (stored-Queued t h x q v.there r),
          )
      | inr new ↦
          let g = grown_queue stale q in
          let full : (q.len == q.capacity) ≡ true = ground (arith, v.within) in
          let size : larger q.capacity ≡ (if c == 0 then 4 else c) = ground arith in
          let r = Queued-grown stale t h c v new in
          (
            put_object h (some (store x g)) t,
            rw (v.there, full) (store_in-returns t h x g r),
            subst (λ k. Queued (put_object h (some (store x g)) t) h k (xs ++ (x ∷ []))) size
                (stored-Queued t h x g v.there r),
          )
    ]

-- The queue without its oldest element.
without_front-Queued :
    (t : Handles Queue) (h c : ℕ) (q : Queue) (n : ℕ) {ys : List ℕ} {old : Option Queue}
    → get_elem? t.objects h ≡ some old
    → q.capacity ≡ c
    → q.len ≡ suc n
    → q.len ≤ c
    → q.head < c
    → q.tail ≡ advance c q.head (suc n)
    → ring q.cells c ((q.head + 1) % c) n ≡ ys
    → Queued (put_object h (some (without_front q)) t) h c ys
unfolding put_object advance
without_front-Queued t h c q n there size count within inside last rest =
    let less : q.len - 1 ≡ n = omega arith in
    let step : (q.head + 1) % q.capacity ≡ (q.head + 1) % c = ap (λ k. (q.head + 1) % k) size in
    record {
      queue = without_front q;
      there = get_elem?-set_elem t.objects h _ (get_elem?-length t.objects h there);
      size = size;
      within = omega arith;
      front = inr (
        subst (λ k. k < c) (sym step) (step_lt c q.head inside),
        last
            ∙ (ap (λ k. advance c k n) (sym step)
                ∙ ap (advance c ((q.head + 1) % q.capacity)) (sym less)),
      );
      items =
          ap (λ k. ring q.cells c k (q.len - 1)) step
          ∙ (ap (ring q.cells c ((q.head + 1) % c)) less ∙ rest);
    }

-- A pop from a queue that is not empty returns the low 32 bits of its oldest element and leaves the
-- others.
pub queue_pop-Queued :
    (h y c : ℕ) (t : Handles Queue) {ys : List ℕ}
    → Queued t h c (y ∷ ys)
    → (t' : Handles Queue) × (queue_pop h t ≡ returns (to_int y) t') × Queued t' h c ys
unfolding queue_pop pop_in with_object
queue_pop-Queued h y c t {ys} v =
    let q = v.queue in
    let count : q.len ≡ suc (length ys) = Queued-len t h c v in
    let filled : (q.len == 0) ≡ false = ground arith in
    elim v.front [
      | inl (no_cells, _, _) ↦ absurd (omega (arith, v.within))
      | inr (inside, last) ↦
          let bound : ltb q.head q.capacity ≡ true = ground (arith, v.size) in
          let (front, rest) =
            ring-cons q.cells c q.head (length ys)
              (subst (λ n. ring q.cells c q.head n ≡ y ∷ ys) count v.items) in
          (
            put_object h (some (without_front q)) t,
            rw (v.there, filled, bound, front) refl,
            without_front-Queued t h c q (length ys) v.there v.size count v.within inside
                (subst (λ n. q.tail ≡ advance c q.head n) count last) rest,
          )
    ]
