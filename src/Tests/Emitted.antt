-- ===== src/Tests/Emitted.antt =====
-- The theorems on the emitted C at small containers, buffers and texts.
use demonic_c.Emitted.Json.{json_get}
use demonic_c.Emitted.Json.Member.{json_get-member}
use demonic_c.Text.{Bytes, codes}
use demonic_c.Emitted.Memory.{null, Memory, mem_alloc, mem_size}
use demonic_c.Emitted.Sockets.{Network, Received, tcp_recv}
use demonic_c.Emitted.Sockets.Bounds.{tcp_recv-overflows}
use demonic_c.Emitted.Memory.Safe.{Request, alloc, map, free, write, read, unmap}
use demonic_c.Emitted.Text.{Chars, of_bytes, in_concat, in_sub, Buffers, text_concat, text_sub}
use demonic_c.Emitted.Text.Sub.{text_sub-take}
use demonic_c.Emitted.Http.{http_get_command, Passed, http_get_command-substituted}
use demonic_c.Base.{
  ℕ, ◌+◌, ◌≡◌, ◌≢◌, inl, inr, refl, true, false, List, [], ◌∷◌, none, some, arith, get_elem?,
  replicate, length-replicate, ltb, length, if◌then◌else◌,
}
use demonic_c.Emitted.Handles.{Effect, returns, undefined, to_int, Handles}
use demonic_c.Emitted.Handles.Count.{calls, calls_end}
use demonic_c.Emitted.Vec.{Vec, vec_new}
use demonic_c.Emitted.Queue.{Queue, queue_push, queue_pop}
use demonic_c.Emitted.Queue.Ring.{ring, advance}
use demonic_c.Emitted.Queue.Fifo.{Queued, queue_push-Queued, queue_pop-Queued}
use demonic_c.Emitted.Queue.Full.{queue_push_full}
use demonic_c.Emitted.Map.{Map, map_set, map_get}
use demonic_c.Emitted.Map.Lookup.{IsMap, result_of, map_get-map_set}

-- The state behind a call.
abbrev behind : {T : Type 0} → T → Effect T ℕ → T
behind t (returns n t') = t'
behind t undefined = t

abbrev pair : Vec
pair = record { items = 7 ∷ 5 ∷ []; capacity = 4 }

abbrev one_vec : Handles Vec
one_vec = record { objects = none ∷ some pair ∷ []; next = 2 }

calls_end_example : (t : Handles Vec) × (calls pair 5 ≡ returns 6 t) × (calls pair 63 ≡ undefined)
calls_end_example = calls_end pair 5 (omega arith)

-- The 64th vector is written behind the 64 places.
vec_new-last : vec_new true true (record { objects = replicate 64 none; next = 64 }) ≡ undefined
unfolding vec_new
vec_new-last = refl

-- Four elements in four cells, the oldest in the third.
abbrev full_queue : Queue
full_queue = record { capacity = 4; len = 4; head = 2; tail = 2; cells = λ i. i + 10 }

abbrev small_queue : Queue
small_queue = record { capacity = 4; len = 2; head = 3; tail = 1; cells = λ i. i + 10 }

abbrev queues : Handles Queue
queues = record { objects = none ∷ some full_queue ∷ some small_queue ∷ []; next = 3 }

full-Queued : Queued queues 1 4 (12 ∷ 13 ∷ 10 ∷ 11 ∷ [])
unfolding ring advance
full-Queued = record {
  queue = full_queue;
  there = refl;
  size = refl;
  within = omega arith;
  front = inr (omega arith, refl);
  items = refl;
}

small-Queued : Queued queues 2 4 (13 ∷ 10 ∷ [])
unfolding ring advance
small-Queued = record {
  queue = small_queue;
  there = refl;
  size = refl;
  within = omega arith;
  front = inr (omega arith, refl);
  items = refl;
}

queue_push-Queued_example :
    (t' : Handles Queue) × (queue_push true (λ i. 0) 2 9 queues ≡ returns 0 t')
    × Queued t' 2 4 (13 ∷ 10 ∷ 9 ∷ [])
queue_push-Queued_example = queue_push-Queued (λ i. 0) 2 9 4 queues small-Queued (inl (omega arith))

queue_pop-Queued_example :
    (t' : Handles Queue) × (queue_pop 2 queues ≡ returns (to_int 13) t') × Queued t' 2 4 (10 ∷ [])
queue_pop-Queued_example = queue_pop-Queued 2 13 4 queues small-Queued

queue_push_full_example :
    (t' : Handles Queue) × (t'' : Handles Queue) × (queue_push true (λ i. 0) 1 9 queues
      ≡ returns 0 t')
    × (queue_pop 1 t' ≡ returns (to_int 9) t'')
queue_push_full_example = queue_push_full (λ i. 0) 1 9 4 queues full-Queued refl (λ p. cc p)

abbrev one_map : Handles Map
one_map = record {
  objects = none ∷ some (record { capacity = 0; used = 0; buckets = none }) ∷ [];
  next = 2;
}

map_get-map_set_example :
    (t' : Handles Map) × (map_set true true 1 3 8 one_map ≡ returns 0 t')
    × (map_get 1 3 t' ≡ returns (to_int 8) t')
    × ((k : ℕ) → k ≢ 3 → result_of (map_get 1 k t') ≡ result_of (map_get 1 k one_map))
    × (m' : Map) × (get_elem? t'.objects 1 ≡ some (some m'))
    × IsMap m'
map_get-map_set_example = map_get-map_set 1 3 8 one_map refl (inl refl)

-- A buffer of two bytes, a write into it and one behind it, a read behind its end of life, and a mapping
-- of three bytes.
abbrev requests : List Request
requests =
    alloc true true true true 2
    ∷ write 1 1 300
    ∷ write 1 2 7
    ∷ read 1 1
    ∷ free 1
    ∷ free 1
    ∷ read 1 0
    ∷ map true true true (1 ∷ 2 ∷ 3 ∷ []) 3
    ∷ write 2 2 7
    ∷ unmap 2
    ∷ []

-- Where one `realloc` of the two fails, the next use of a buffer is undefined.
abbrev one_buffer : Memory
one_buffer = record {
  buffers = record { pointer = null; size = 0 } ∷ [];
  file_slots = 1;
  next = 1;
  dangling = false;
}

abbrev half_grown : Memory
half_grown = behind one_buffer (mem_alloc true true false true 8 one_buffer)

mem_size-half_grown : mem_size 0 half_grown ≡ undefined
unfolding mem_size mem_alloc
mem_size-half_grown = refl

abbrev behind_text : (Buffers → Effect Buffers Chars) → Effect Buffers Chars → Effect Buffers Chars
behind_text k (returns r t) = k t
behind_text k undefined = undefined

abbrev no_texts : Buffers
no_texts = record { concat = []; sub = [] }

-- The results of `text_concat` share one buffer: the second call changes the first result, and a call on
-- a result is undefined.
abbrev concat_twice : Effect Buffers Chars
concat_twice =
    behind_text (text_concat (of_bytes (codes "c")) (of_bytes (codes "d")))
      (text_concat (of_bytes (codes "a")) (of_bytes (codes "b")) no_texts)

text_concat-shared : concat_twice ≡ returns in_concat (record { concat = codes "cd"; sub = [] })
unfolding text_concat
text_concat-shared = refl

text_concat-nested :
    behind_text (text_concat in_concat (of_bytes (codes "e"))) concat_twice ≡ undefined
unfolding text_concat
text_concat-nested = refl

text_sub-take_example :
    text_sub (of_bytes (codes "hellfire")) 4 9 no_texts
    ≡ returns in_sub (record { concat = []; sub = codes "fire" })
text_sub-take_example = text_sub-take (codes "hellfire") 4 9 no_texts (omega arith) (omega arith)

i-Passed : Passed b'i'
i-Passed = record {
  no_quote = refl;
  no_tick = refl;
  no_and = refl;
  no_semicolon = refl;
  no_bar = refl;
  no_backquote = refl;
}

d-Passed : Passed b'd'
d-Passed = record {
  no_quote = refl;
  no_tick = refl;
  no_and = refl;
  no_semicolon = refl;
  no_bar = refl;
  no_backquote = refl;
}

http_get_command-substituted_example :
    http_get_command (codes "$(id)") ≡ some (codes "curl -LfsS --max-time 20 -- $(id)")
http_get_command-substituted_example =
    http_get_command-substituted (codes "id") (i-Passed, (d-Passed, tt)) (omega arith)

json_get-member_example :
    json_get (codes "{\"name\" :  \"Alice\", \"age\": 7}") (codes "name") ≡ codes "Alice"
json_get-member_example =
    json_get-member (codes "{") (codes "name") 1 2 (codes "Alice") (codes ", \"age\": 7}")
      (refl, tt) (omega arith) (refl, (refl, (refl, (refl, (refl, tt))))) (omega arith)

-- A tab behind the colon is not passed over.
json_get-tab : json_get (codes "{\"a\":\t\"b\"}") (codes "a") ≡ codes "\t\"b\""
unfolding json_get
json_get-tab = refl

-- A value is taken for the key.
json_get-value :
    json_get (codes "{\"a\": \"k\", \"b\": \"x\", \"k\": \"y\"}") (codes "k") ≡ codes "x"
unfolding json_get
json_get-value = refl

-- A network on which every address answers, and each answer is 65536 bytes or as many as are asked for.
abbrev flooding : Network Bytes ℕ
flooding = record {
  getaddrinfo = λ host port w. (some host, w);
  socket = λ a w. (some 3, w);
  connect = λ s a w. (true, w);
  close = λ s w. w;
  send = λ s text w. (some (length text), w);
  recv = λ s n w. (some (if ltb n 65536 then replicate n 65 else replicate 65536 65), w);
}

abbrev empty_buffer : Received ℕ
empty_buffer = record { b = replicate 65536 0; world = 0 }

tcp_recv-overflows_example : tcp_recv flooding 3 18446744073709551615 empty_buffer ≡ undefined
tcp_recv-overflows_example =
    tcp_recv-overflows flooding 3 18446744073709551615 empty_buffer (replicate 65536 65) 0
      (omega arith) (omega arith) refl (omega (arith, length-replicate {A = ℕ} 65536 65))
