-- ===== src/LsQueue/Ring.antt =====
-- The ring of the load/store queue of ls-queue.c.
use fakerv32i.Base.{
  ℕ, ◌≡◌, refl, arith, List, [], ◌∷◌, length, set, get_elem?, length-set, ◌∙◌, done, in_range,
  Always, Always-bind, Always-then, Always-if, Always-weaken, true, false,
}
use fakerv32i.Reg.{RegMut, reg_mut_read, reg_mut_write, busy_wait_should_stall}
use fakerv32i.Queue.{visited, queue_push, queue_pop, queue_empty}
use fakerv32i.Queue.Bounds.{
  IsRing, IsRingAnd, queue_create-IsRing, queue_push-IsRing, queue_pop-IsRing, set_cell-IsRing,
}
use fakerv32i.Memory.Pending.{MemUnit, mem_request_load, mem_request_store}
use fakerv32i.Memory.Pending.Content.{
  HasBytes, mem_request_load-HasBytes, mem_request_store-HasBytes,
}
use fakerv32i.LsQueue.{
  LsOp, LsPayload, LsQueue, load, store, no_payload, ls_queue_capacity, ls_queue_create, clear_load,
  clear_loads, ls_take, ls_issue, ls_queue_tick, ls_write, ls_queue_push, ls_queue_clear,
  ls_queue_full,
}

abbrev pub IsLsRing : LsQueue → Type 0
IsLsRing ls = IsRing ls_queue_capacity ls.queue

pub ls_queue_create-IsLsRing : IsLsRing ls_queue_create
unfolding ls_queue_create
ls_queue_create-IsLsRing = queue_create-IsRing 8 (omega arith) no_payload

clear_loads-length :
    (cells : List (RegMut LsPayload)) (ps : List ℕ)
    → Always (λ c. length c ≡ length cells) (clear_loads cells ps)
unfolding clear_loads
clear_loads-length cells [] = refl
clear_loads-length cells (p ∷ ps) =
    Always-then (λ c. length c ≡ length cells) (in_range (get_elem? cells p)) _
      λ reg.
        Always-then (λ c. length c ≡ length cells) (clear_load (reg_mut_read reg).op reg) _
          λ reg'.
            Always-weaken (λ c. length c ≡ length (set cells p reg')) (λ c. length c ≡ length cells)
              (clear_loads (set cells p reg') ps) (clear_loads-length (set cells p reg') ps)
              λ c e. e ∙ length-set cells p reg'

ls_take-IsLsRing : (ls : LsQueue) → IsLsRing ls → Always (λ r. IsLsRing r.0) (ls_take ls)
unfolding ls_take
ls_take-IsLsRing ls h =
    Always-bind (IsRingAnd 8) (λ r. IsLsRing r.0) (queue_pop ls.queue) _
      (queue_pop-IsRing 8 (omega arith) ls.queue h)
      λ popped h'.
        Always-then (λ r. IsLsRing r.0) (in_range popped.1) _
          λ p. Always-then (λ r. IsLsRing r.0) (in_range (get_elem? popped.0.cells p)) _ λ reg. h'

-- The queue and the memory that it hands requests to.
abbrev pub IsLsPair : LsQueue × MemUnit → Type 0
IsLsPair r = IsLsRing r.0 × HasBytes r.1

ls_issue-IsLsPair :
    (ls : LsQueue) (mem : MemUnit) (payload : LsPayload) (op : LsOp)
    → IsLsRing ls
    → HasBytes mem
    → Always IsLsPair (ls_issue ls mem payload op)
unfolding ls_issue
ls_issue-IsLsPair ls mem payload load h hm =
    Always-bind (λ r. HasBytes r.1) IsLsPair
      (mem_request_load mem payload.addr payload.size payload.base_msg) _
      (mem_request_load-HasBytes mem payload.addr payload.size payload.base_msg hm) λ r hr. (h, hr)
ls_issue-IsLsPair ls mem payload store h hm =
    Always-bind (λ r. HasBytes r.1) IsLsPair
      (mem_request_store mem payload.addr payload.value payload.size) _
      (mem_request_store-HasBytes mem payload.addr payload.value payload.size hm) λ r hr. (h, hr)

pub ls_queue_tick-IsLsPair :
    (ls : LsQueue) (mem : MemUnit)
    → IsLsRing ls
    → HasBytes mem
    → Always IsLsPair (ls_queue_tick ls mem)
unfolding ls_queue_tick
ls_queue_tick-IsLsPair ls mem h hm =
    Always-if IsLsPair (reg_mut_read ls.clear) _ _
      (Always-then IsLsPair (visited ls.queue) _ λ ps.
        Always-bind (λ c. length c ≡ length ls.queue.cells) IsLsPair (clear_loads ls.queue.cells ps)
          _ (clear_loads-length ls.queue.cells ps)
          λ cells' e. (
            record { capacity = h.capacity; cells = e ∙ h.cells; head = h.head; tail = h.tail },
            hm,
          ))
      (Always-if IsLsPair (busy_wait_should_stall ls.lock) (done (ls, mem)) _ (h, hm)
        (Always-if IsLsPair (queue_empty ls.queue) (done (ls, mem)) _ (h, hm)
          (Always-bind (λ r. IsLsRing r.0) IsLsPair (ls_take ls) _ (ls_take-IsLsRing ls h)
            λ taken h'.
              Always-if IsLsPair taken.1.cleared (done (taken.0, mem)) _ (h', hm)
                (ls_issue-IsLsPair taken.0 mem taken.1 taken.1.op h' hm))))

pub ls_queue_push-IsLsRing :
    (ls : LsQueue) (payload : LsPayload)
    → IsLsRing ls
    → Always (λ r. IsLsRing r.1) (ls_queue_push ls payload)
unfolding ls_queue_push ls_write
ls_queue_push-IsLsRing ls payload h =
    Always-if (λ r. IsLsRing r.1) (ls_queue_full ls) _ _ h
      (Always-bind (IsRingAnd 8) (λ r. IsLsRing r.1) (queue_push ls.queue) _
        (queue_push-IsRing 8 (omega arith) ls.queue h)
        λ pushed h'.
          Always-then (λ r. IsLsRing r.1) (in_range pushed.1) _
            λ p.
              Always-then (λ r. IsLsRing r.1) (in_range (get_elem? pushed.0.cells p)) _
                λ reg.
                  Always-then (λ r. IsLsRing r.1)
                    (reg_mut_write reg (λ _. record payload { cleared = false })) _
                    λ reg'. set_cell-IsRing 8 (omega arith) pushed.0 p reg' h')

pub ls_queue_clear-IsLsRing : (ls : LsQueue) → IsLsRing ls → Always IsLsRing (ls_queue_clear ls)
unfolding ls_queue_clear
ls_queue_clear-IsLsRing ls h =
    Always-then IsLsRing (reg_mut_write ls.clear (λ _. true)) _ λ clear'. h
