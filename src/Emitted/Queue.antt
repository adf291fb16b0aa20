-- ===== src/Emitted/Queue.antt =====
-- The queues of the emitted C, `queue_new` to `queue_free` in `emit_runtime` of compiler/dmc.cpp.
pub mod Ring
pub mod Fifo
pub mod Full
use demonic_c.Base.{
  ℕ, zero, suc, ◌+◌, ◌-◌, ◌%◌, Bool, true, false, Option, none, some, if◌then◌else◌, ltb, ◌==◌,
  set_elem,
}
use demonic_c.Emitted.Handles.{
  Effect, returns, undefined, to_int, minus_one, Handles, new, with_object, with_checked,
  put_object,
}
use demonic_c.Emitted.Vec.{larger}

-- `data` by its indices, of which `cap` are allocated, and the other fields.
pub record Queue : Type 0 where
  pub capacity : ℕ
  pub len : ℕ
  pub head : ℕ
  pub tail : ℕ
  pub cells : ℕ → ℕ

abbrev pub Call : Type 0
Call = Handles Queue → Effect (Handles Queue) ℕ

-- `allocated` and `grown` tell whether `calloc` and `realloc` succeed.
unfoldable pub queue_new : Bool → Bool → Call
unfolding new
queue_new allocated grown =
    new allocated grown (record { capacity = 0; len = 0; head = 0; tail = 0; cells = λ i. 0 })

unfoldable pub queue_len : ℕ → Call
unfolding with_checked
queue_len handle = with_checked handle (λ q t. returns (to_int q.len) t)

-- `q->data[q->tail] = x`, and the two statements behind it.
unfoldable pub store : ℕ → Queue → Queue
store x q = record q {
  cells = λ i. if i == q.tail then x else q.cells i;
  tail = (q.tail + 1) % q.capacity;
  len = q.len + 1;
}

abbrev pub store_in : ℕ → ℕ → Queue → Call
store_in handle x q t =
    if ltb q.tail q.capacity then returns 0 (put_object handle (some (store x q)) t) else undefined

-- The queue behind `realloc`, which leaves `stale` in the new cells.
abbrev pub grown_queue : (ℕ → ℕ) → Queue → Queue
grown_queue stale q = record q {
  capacity = larger q.capacity;
  cells = λ i. if ltb i q.capacity then q.cells i else stale i;
}

unfoldable pub push_in : Bool → (ℕ → ℕ) → ℕ → ℕ → Queue → Call
unfolding put_object store
push_in grown stale handle x q t =
    if q.len == q.capacity
    then (if grown then store_in handle x (grown_queue stale q) t else undefined)
    else store_in handle x q t

unfoldable pub queue_push : Bool → (ℕ → ℕ) → ℕ → ℕ → Call
unfolding with_object push_in
queue_push grown stale handle x = with_object handle (push_in grown stale handle x)

abbrev pub without_front : Queue → Queue
without_front q = record q { head = (q.head + 1) % q.capacity; len = q.len - 1 }

unfoldable pub pop_in : ℕ → Queue → Call
unfolding put_object
pop_in handle q t =
    if q.len == 0
    then returns minus_one t
    else if ltb q.head q.capacity
    then returns (to_int (q.cells q.head)) (put_object handle (some (without_front q)) t)
    else undefined

unfoldable pub queue_pop : ℕ → Call
unfolding with_object pop_in
queue_pop handle = with_object handle (pop_in handle)

unfoldable pub queue_peek : ℕ → Call
unfolding with_object
queue_peek handle = with_object handle λ q t.
    if q.len == 0
    then returns minus_one t
    else if ltb q.head q.capacity
    then returns (to_int (q.cells q.head)) t
    else undefined

unfoldable pub queue_free : ℕ → Call
unfolding with_object put_object
queue_free handle = with_object handle (λ q t. returns 0 (put_object handle none t))
