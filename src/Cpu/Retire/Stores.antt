-- ===== src/Cpu/Retire/Stores.antt =====
-- ls-queue.c: the push with which a store commits.
use fakerv32i.Base.{
  ◌+◌, ◌%◌, ◌<◌, ◌≡◌, refl, arith, false, length, get_elem?, set, get_elem?-set_self, some, done,
}
use fakerv32i.Rv32i.{RobOp, store, register, branch, jalr, hcf, success}
use fakerv32i.Reg.{RegMut, reg_mut_read, reg_mut_write}
use fakerv32i.Queue.{Queue, queue_full, queue_push, queue_trunc, cell}
use fakerv32i.Memory.Pending.{no_message}
use fakerv32i.LsQueue.{LsOp, LsPayload, LsQueue, ls_queue_full, ls_queue_push, ls_write}
use fakerv32i.ReorderBuffer.{RobPayload}
use fakerv32i.Cpu.Flush.{written}

-- What a store hands to the load/store queue.
abbrev pub store_request : RobPayload → LsPayload
store_request payload = record {
  op = LsOp.store;
  size = payload.size;
  addr = payload.addr;
  base_msg = no_message;
  cleared = false;
  value = payload.value;
}

-- There is room, and nothing has been pushed in this cycle.
pub record IsAccepting (q : Queue LsPayload) : Type 0 where
  pub room : queue_full q ≡ false
  pub tail : q.tail.write_count ≡ 0
  pub inside : (q.tail.buf < q.capacity) × (q.tail.buf < length q.cells)
  pub cell :
      (reg : RegMut LsPayload) × (get_elem? q.cells q.tail.buf ≡ some reg) × (reg.write_count ≡ 0)

-- The queue after the commit: with the request at its end for a store, and otherwise as it was.
abbrev pub Stored : RobOp → RobPayload → Queue LsPayload → Queue LsPayload → Type 0
Stored store payload before after =
    (reg : RegMut LsPayload) × (get_elem? after.cells before.tail.buf ≡ some reg)
    × (reg.next ≡ store_request payload)
    × (after.tail.next ≡ (before.tail.buf + 1) % before.capacity)
Stored register payload before after = after ≡ before
Stored branch payload before after = after ≡ before
Stored jalr payload before after = after ≡ before
Stored hcf payload before after = after ≡ before

queue_push-advanced :
    (q : Queue LsPayload)
    → IsAccepting q
    → queue_push q
      ≡ done (record q { tail = written q.tail ((q.tail.buf + 1) % q.capacity) }, some q.tail.buf)
unfolding queue_push queue_full queue_trunc cell reg_mut_read reg_mut_write
queue_push-advanced q a = ground (arith, a.room, a.tail, a.inside)

pub ls_queue_push-Stored :
    (payload : RobPayload) (ls : LsQueue)
    → IsAccepting ls.queue
    → (ls' : LsQueue) × (ls_queue_push ls (store_request payload) ≡ done (success, ls'))
      × Stored store payload ls.queue ls'.queue
unfolding ls_queue_push ls_write ls_queue_full reg_mut_write
ls_queue_push-Stored payload ls a =
    let (reg, at, w) = a.cell in
    let q = ls.queue in
    let pushed = written reg (store_request payload) in
    (
      record ls {
        queue = record q {
          tail = written q.tail ((q.tail.buf + 1) % q.capacity);
          cells = set q.cells q.tail.buf pushed;
        };
      },
      simp (a.room, queue_push-advanced q a, at, w) refl,
      (pushed, get_elem?-set_self q.cells q.tail.buf pushed a.inside.1, refl, refl),
    )
