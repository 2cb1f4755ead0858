-- ===== src/Cpu/Retire/Effects/Entry.antt =====
-- reorder-buffer.c: the whole commit of an entry, against `retired`.
use fakerv32i.Base.{ℕ, zero, suc, ◌%◌, ◌+◌, ◌<◌, ◌≡◌, ◌≢◌, refl, arith, false, some, done}
use fakerv32i.Reg.{reg_mut_read, reg_mut_write}
use fakerv32i.FakeCpu.Machine.{Machine}
use fakerv32i.ReorderBuffer.{RobPayload}
use fakerv32i.Cpu.{Cpu}
use fakerv32i.Cpu.Flush.{written}
use fakerv32i.Cpu.Retire.{retired}
use fakerv32i.Cpu.Commit.{retire, rob_commit}
use fakerv32i.ReorderBuffer.{Entry, RobUnit, with_entry}
use fakerv32i.Queue.{Queue, queue_pop, queue_trunc}
use fakerv32i.Cpu.Retire.Stores.{Stored}
use fakerv32i.Cpu.Retire.Effects.{slot_at, Holds, IsCommitting, fetches_at}
use fakerv32i.Cpu.Retire.Effects.Switch.{Commits, commit_switch-retired}
use fakerv32i.Cpu.Retire.Effects.Requests.{after_set-requests, after_set-length, clear_dest-Holds}

-- An entry at the head of the ring, with its registers unwritten.
pub record IsRetiring (entry : Entry) (cpu : Cpu) : Type 0 where
  pub commits : IsCommitting entry.payload.buf cpu
  pub requests : (r : ℕ) → r < 32 → (slot_at cpu.reg_store r).rob_id_clear_if.write_count ≡ 0
  pub ready : entry.ready.write_count ≡ 0
  pub head : cpu.rob.robs.head.write_count ≡ 0
  pub inside : cpu.rob.robs.head.buf < cpu.rob.robs.capacity
  pub used : cpu.rob.robs.head.buf ≢ cpu.rob.robs.tail.buf

with_entry-robs :
    (rob : RobUnit) (id : ℕ) (entry : Entry) → (with_entry rob id entry).robs ≡ rob.robs
unfolding with_entry
with_entry-robs rob zero entry = refl
with_entry-robs rob (suc i) entry = refl

abbrev popped : Queue ℕ → Queue ℕ
popped q = record q { head = written q.head ((q.head.buf + 1) % q.capacity) }

queue_pop-popped :
    (q : Queue ℕ)
    → q.head.write_count ≡ 0
    → q.head.buf < q.capacity
    → q.head.buf ≢ q.tail.buf
    → queue_pop q ≡ done (popped q, some q.head.buf)
unfolding queue_pop queue_trunc reg_mut_read reg_mut_write
queue_pop-popped q w lt ne = ground arith

retire-popped :
    (id : ℕ) (entry : Entry) (cpu : Cpu)
    → entry.ready.write_count ≡ 0
    → cpu.rob.robs.head.write_count ≡ 0
    → cpu.rob.robs.head.buf < cpu.rob.robs.capacity
    → cpu.rob.robs.head.buf ≢ cpu.rob.robs.tail.buf
    → (rob : RobUnit) × (retire id entry cpu ≡ done (record cpu { rob = rob }))
      × (rob.robs ≡ popped cpu.rob.robs)
unfolding retire reg_mut_write
retire-popped id entry cpu r w lt ne =
    let entry' = record entry { ready = written entry.ready false } in
    (
      record (with_entry cpu.rob id entry') { robs = popped cpu.rob.robs },
      simp (r, with_entry-robs cpu.rob id entry', queue_pop-popped cpu.rob.robs w lt ne) refl,
      refl,
    )

-- The count of the commits does not matter to them.
abbrev counted : Cpu → Cpu
counted cpu = record cpu { rob = record cpu.rob { commit_count = cpu.rob.commit_count + 1 } }

counted-IsCommitting :
    (payload : RobPayload) (cpu : Cpu)
    → IsCommitting payload cpu
    → IsCommitting payload (counted cpu)
counted-IsCommitting payload cpu c =
    let u = c.unwritten in
    record {
      unwritten = record {
        force_pc = u.force_pc;
        reg_store = u.reg_store;
        rob = u.rob;
        rs = u.rs;
        ls_queue = u.ls_queue;
        cdb = u.cdb;
        mem = u.mem;
      };
      unforced = c.unforced;
      slots = c.slots;
      registers = c.registers;
      target = c.target;
      accepts = c.accepts;
      predictor = c.predictor;
      history = c.history;
    }

-- The commit of a ready entry at the head of the ring, of any kind but the halting one, returns, as
-- `retired` does. If the register store is about to hold a machine's registers, then after the commit it
-- is about to hold those of the machine that `retired` leaves, and the fetch goes on at that machine's
-- program counter. A store puts its address, value and size at the end of the load/store queue, which
-- every other kind leaves alone, and the head of the ring moves on by one place.
pub rob_commit-retired :
    (id : ℕ) (entry : Entry) (next_pc : ℕ) (cpu : Cpu) (m : Machine)
    → Commits entry.payload.buf.op
    → IsRetiring entry cpu
    → Holds cpu.reg_store m.regs
    → (cpu' : Cpu) × (m' : Machine) × (rob_commit id entry cpu ≡ done cpu')
      × (retired entry.payload.buf next_pc m ≡ done m')
      × Holds cpu'.reg_store m'.regs
      × (fetches_at cpu'.inst_unit next_pc ≡ m'.pc)
      × Stored entry.payload.buf.op entry.payload.buf cpu.ls_queue.queue cpu'.ls_queue.queue
      × (cpu'.rob.robs.head.next ≡ (cpu.rob.robs.head.buf + 1) % cpu.rob.robs.capacity)
unfolding rob_commit reg_mut_read
rob_commit-retired id entry next_pc cpu m has c holds =
    let payload = entry.payload.buf in
    let commits = c.commits in
    let (cpu1, m', switched, retires, held, at, kept) =
      commit_switch-retired payload next_pc (counted cpu) m has
        (counted-IsCommitting payload cpu commits) holds in
    let slots = after_set-length payload.dest payload.value cpu.reg_store commits.slots in
    let (regs, cleared, held') =
      clear_dest-Holds payload.op payload.dest id cpu1 m'.regs commits.target (rw kept.slots slots)
        (λ r lt.
          rw
            (
              kept.slots,
              after_set-requests payload.dest payload.value cpu.reg_store r commits.slots lt,
            )
            (c.requests r lt))
        held in
    let (rob, popped, robs) =
      retire-popped id entry (record cpu1 { reg_store = regs }) c.ready (rw kept.head c.head)
        (rw (kept.head, kept.capacity) c.inside) (rw (kept.head, kept.tail) c.used) in
    (
      record cpu1 { reg_store = regs; rob = rob },
      m',
      simp (switched, cleared, popped) refl,
      retires,
      held',
      at,
      kept.stored,
      rw (robs, kept.head, kept.capacity) refl,
    )
