-- ===== src/Runtime/Leaves/Tcp.antt =====
-- Each call of runtime/net/dmc_net.c leaves a valid table.
use demonic_c.Base.{ℕ, refl, Bool, Option, none, some, if_intro, ltb, length}
use demonic_c.Emitted.Handles.{to_int}
use demonic_c.Emitted.Sockets.{size_of_int}
use demonic_c.Text.{Bytes, codes}
use demonic_c.Runtime.Core.{dmc_socket, descriptor, Table, empty_slot, fail}
use demonic_c.Runtime.Core.Valid.{IsTable, with_handle-leaves}
use demonic_c.Runtime.Core.Valid.Reserve.{reserve-Reserved}
use demonic_c.Runtime.Net.{Sockets, reserve_socket, tcp_connect, tcp_send, tcp_recv, tcp_close}
use demonic_c.Runtime.Leaves.{Leaves, fail-Leaves, replaced-Leaves, Reserved-Leaves}

module _ {F : Type 0} (net : Sockets) where
  reserve_socket-Leaves :
      (grown : Bool) (o : Option ℕ) (t : Table F)
      → IsTable t
      → Leaves (reserve_socket net grown o t)
  unfolding fail
  reserve_socket-Leaves grown none t v = fail-Leaves (codes "TCP connection failed") none t v
  reserve_socket-Leaves grown (some fd) t v = Reserved-Leaves (
      reserve-Reserved grown (record { kind = dmc_socket; value = descriptor fd; size = 0 }) t tt v)

  pub tcp_connect-Leaves :
      (grown : Bool) (host : Bytes) (port : ℕ) (t : Table F)
      → IsTable t
      → Leaves (tcp_connect net grown host port t)
  unfolding tcp_connect
  tcp_connect-Leaves grown host port t v =
      if_intro Leaves (net.lookup host port)
        (λ _. reserve_socket-Leaves grown (net.connect host port) t v)
        (λ _. fail-Leaves (codes "address lookup failed") none t v)

  pub tcp_send-Leaves :
      (arguments : Bool) (h : ℕ) (text : Bytes) (t : Table F)
      → IsTable t
      → Leaves (tcp_send net arguments h text t)
  unfolding tcp_send
  tcp_send-Leaves arguments h text t v =
      with_handle-leaves Leaves h dmc_socket _ t (λ m. fail-Leaves m none t v)
        λ slot _ _.
          if_intro Leaves arguments
            (λ _.
              if_intro Leaves (ltb (length text) (size_of_int (to_int (length text))))
                (λ _. record { valid = v }) (λ _. record { valid = v }))
            (λ _. record { valid = v })

  pub tcp_recv-Leaves :
      (arguments : Bool) (h n : ℕ) (t : Table F) → IsTable t → Leaves (tcp_recv net arguments h n t)
  unfolding tcp_recv
  tcp_recv-Leaves arguments h n t v =
      with_handle-leaves Leaves h dmc_socket _ t (λ m. fail-Leaves m none t v)
        λ slot _ _.
          if_intro Leaves arguments
            (λ _.
              if_intro Leaves (ltb n (size_of_int (to_int n))) (λ _. record { valid = v })
                (λ _. record { valid = v }))
            (λ _. record { valid = v })

  pub tcp_close-Leaves : (h : ℕ) (t : Table F) → IsTable t → Leaves (tcp_close net h t)
  unfolding tcp_close
  tcp_close-Leaves h t v =
      with_handle-leaves Leaves h dmc_socket _ t (λ m. fail-Leaves m none t v)
        λ slot e k.
          if_intro Leaves _ (λ _. replaced-Leaves (some tt) h slot empty_slot t e (λ p. cc) refl v)
            (λ _. replaced-Leaves none h slot empty_slot t e (λ p. cc) refl v)
