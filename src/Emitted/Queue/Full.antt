-- ===== src/Emitted/Queue/Full.antt =====
-- What a push onto a full queue of the emitted C does.
use demonic_c.Base.{
  ℕ, ◌+◌, ◌≡◌, ◌≢◌, ◌∙◌, ap, inl, inr, true, false, List, some, ltb, ◌==◌, length, get_elem?, arith,
  get_elem?-set_elem, get_elem?-length,
}
use demonic_c.Emitted.Handles.{returns, to_int, Handles, with_object, put_object}
use demonic_c.Emitted.Vec.{larger}
use demonic_c.Emitted.Queue.{
  Queue, store, grown_queue, push_in, queue_push, without_front, pop_in, queue_pop,
}
use demonic_c.Emitted.Queue.Ring.{advance, advance_round}
use demonic_c.Emitted.Queue.Fifo.{Queued, Queued-len}

queue_pop-returns :
    (t : Handles Queue) (h : ℕ) (q : Queue)
    → get_elem? t.objects h ≡ some (some q)
    → (q.len == 0) ≡ false
    → ltb q.head q.capacity ≡ true
    → queue_pop h t ≡ returns (to_int (q.cells q.head)) (put_object h (some (without_front q)) t)
unfolding queue_pop pop_in with_object
queue_pop-returns t h q there filled bound = rw (there, filled, bound)

store-front :
    (x : ℕ) (q : Queue)
    → q.tail ≡ q.head
    → ((store x q).cells q.head ≡ x) × (((store x q).len == 0) ≡ false)
unfolding store
store-front x q e =
    let same : (q.head == q.tail) ≡ true = ground (arith, e) in
    let more : (q.len + 1 == 0) ≡ false = ground arith in (rw same, more)

-- A push onto a queue that is full, where `realloc` succeeds, writes over its oldest element: it returns
-- 0, and the pop behind it returns the value that was pushed last.
pub queue_push_full :
    (stale : ℕ → ℕ) (h x c : ℕ) (t : Handles Queue) {xs : List ℕ}
    → Queued t h c xs
    → length xs ≡ c
    → c ≢ 0
    → (t' : Handles Queue) × (t'' : Handles Queue) × (queue_push true stale h x t ≡ returns 0 t')
      × (queue_pop h t' ≡ returns (to_int x) t'')
unfolding queue_push push_in with_object store put_object
queue_push_full stale h x c t {xs} v whole cells =
    let q = v.queue in
    let g = grown_queue stale q in
    let count : q.len ≡ length xs = Queued-len t h c v in
    let same : q.capacity ≡ c = v.size in
    let full : (q.len == q.capacity) ≡ true = ground arith in
    elim v.front [
      | inl (no_cells, _, _) ↦ absurd (cells no_cells)
      | inr (inside, last) ↦
          let round : q.tail ≡ q.head =
            last ∙ (ap (advance c q.head) (count ∙ whole) ∙ advance_round c q.head inside) in
          let room : ltb q.tail (larger q.capacity) ≡ true = ground arith in
          let here : ltb q.head (larger q.capacity) ≡ true = ground arith in
          (
            put_object h (some (store x g)) t,
            put_object h (some (without_front (store x g))) (put_object h (some (store x g)) t),
            rw (v.there, full, room),
            queue_pop-returns (put_object h (some (store x g)) t) h (store x g)
                  (get_elem?-set_elem t.objects h _ (get_elem?-length t.objects h v.there))
                  (store-front x g round).1 here
                ∙ ap
                    (λ y. returns (to_int y) (
                      put_object h (some (without_front (store x g)))
                        (put_object h (some (store x g)) t)))
                    (store-front x g round).0,
          )
    ]
