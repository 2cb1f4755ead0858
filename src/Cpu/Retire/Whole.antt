-- ===== src/Cpu/Retire/Whole.antt =====
-- One instruction from its dispatch to the commit of its entry, against the RV32I manual.
use fakerv32i.Base.{◌>>=◌, fault, ap, ℕ, ◌≡◌, refl, ◌∙◌, sym, Outcome, done}
use fakerv32i.AluOps.{alu_execute}
use fakerv32i.Isa.{Instr}
use fakerv32i.Isa.Encoding.{encode, IsEncodable}
use fakerv32i.Inst.{Inst, inst_decode, inst_type}
use fakerv32i.Inst.RoundTrip.{IsDecodable}
use fakerv32i.Rv32i.{RsType, reservation_station, load_buffer, store_buffer}
use fakerv32i.Memory.{Bytes, mem_get_sz, mem_set_sz}
use fakerv32i.Reservation.Issue.{store_addr, store_value}
use fakerv32i.Memory.Access.{IsBytes}
use fakerv32i.FakeCpu.Machine.{Machine, execute}
use fakerv32i.FakeCpu.Step.{IsRunnable}
use fakerv32i.Reservation.{RsPayload, rs_calc_addr}
use fakerv32i.ReorderBuffer.{RobPayload, Entry, take_result}
use fakerv32i.InstUnit.Dispatch.{Sources, Dispatched, dispatch_base, dispatch_switch}
use fakerv32i.Cpu.{Cpu}
use fakerv32i.Cpu.Commit.{rob_commit}
use fakerv32i.Cpu.Retire.{Readable, arrived, life, retired, worked}
use fakerv32i.Cpu.Retire.Stores.{Stored}
use fakerv32i.Cpu.Retire.Manual.{life-execute}
use fakerv32i.Cpu.Retire.Effects.{Holds, fetches_at}
use fakerv32i.Cpu.Retire.Effects.Switch.{Commits}
use fakerv32i.Cpu.Retire.Effects.Entry.{IsRetiring, rob_commit-retired}

same_machine : (m m' : Machine) (o : Outcome Machine) → o ≡ done m → o ≡ done m' → m ≡ m'
same_machine m m' o h h' = cc

-- What the dispatch of an instruction writes, for an entry and a station whose payloads hold anything.
unfoldable pub dispatched : Sources → Inst → ℕ → ℕ → ℕ → RobPayload → RsPayload → Outcome Dispatched
dispatched unit inst pc rs_id rob_id rob rs =
    dispatch_switch unit inst pc (dispatch_base inst pc rs_id rob_id rob rs) inst.format

-- What the entry holds once the station has done its work: the result of the unit, the value that a load
-- reads, or the address and the value of a store.
abbrev pub Yields : RsType → RsPayload → RobPayload → Machine → RobPayload → Type 0
Yields reservation_station rs rob m payload =
    (value : ℕ) × (alu_execute rs.op_alu rs.value1 rs.value2 ≡ done value)
    × (payload ≡ take_result (record { rob = rs.dest; result = value }) rob)
Yields load_buffer rs rob m payload =
    (value : ℕ) × (mem_get_sz m.mem (rs_calc_addr rs) rs.op_ls ≡ done value)
    × (payload ≡ take_result (record { rob = rs.dest; result = value }) rob)
Yields store_buffer rs rob m payload = payload ≡ store_value rs (store_addr rs rob)

-- Two machines that differ in memory at most.
abbrev Alike : Machine → Machine → Type 0
Alike m m' = (m.regs ≡ m'.regs) × (m.pc ≡ m'.pc)

same-Alike : (m m' : Machine) (o : Outcome Machine) → o ≡ done m → o ≡ done m' → Alike m m'
same-Alike m m' o h h' = let e = same_machine m m' o h h' in (ap (λ n. n.regs) e, ap (λ n. n.pc) e)

-- A store's own write to memory comes on top.
stored-Alike :
    (written : Outcome Bytes) (m m' : Machine)
    → (do mem ← written; done (record m { mem = mem })) ≡ done m'
    → Alike m m'
stored-Alike (done mem) m m' h =
    same-Alike (record m { mem = mem }) m' (done (record m { mem = mem })) refl h
stored-Alike (fault e) m m' h = absurd cc

worked-Alike :
    (t : RsType) (rs : RsPayload) (rob payload : RobPayload) (next_pc : ℕ) (m worked_m m' : Machine)
    → Yields t rs rob m payload
    → worked t rs rob next_pc m ≡ done worked_m
    → retired payload next_pc m ≡ done m'
    → Alike m' worked_m
unfolding worked
worked-Alike reservation_station rs rob payload next_pc m worked_m m' (value, computes, e) w r =
    same-Alike m' worked_m (retired payload next_pc m) r (rw e (rw computes at w))
worked-Alike load_buffer rs rob payload next_pc m worked_m m' (value, computes, e) w r =
    same-Alike m' worked_m (retired payload next_pc m) r (rw e (rw computes at w))
worked-Alike store_buffer rs rob payload next_pc m worked_m m' e w r =
    stored-Alike (mem_set_sz m.mem payload.addr payload.value payload.size) m' worked_m
      (rw e (rw (rw e at r) at w))

-- An encodable, decodable and runnable instruction whose operands stand for the registers of a machine
-- when it is dispatched. If its entry holds what the station yields once they have come, if the register
-- store is about to hold the machine's registers, and if the entry can commit, then the commit returns,
-- the register store is about to hold the registers that the manual gives, the fetch goes on at the
-- manual's program counter, whatever was predicted, and a store stands in the load/store queue.
pub rob_commit-execute :
    (result : ℕ → ℕ) (unit : Sources) (m : Machine) (x : Instr) (rs_id rob_id : ℕ)
    (rob : RobPayload) (rs : RsPayload) (d : Dispatched) (id : ℕ) (entry : Entry) (cpu : Cpu)
    → Readable result unit m
    → IsEncodable x
    → IsDecodable x
    → IsRunnable x m
    → IsBytes m.mem
    → dispatched unit (inst_decode (encode x)) m.pc rs_id rob_id rob rs ≡ done d
    → Yields
        (inst_type (inst_decode (encode x)))
        (arrived result d.rs_data)
        d.rob_data
        m
        entry.payload.buf
    → Commits entry.payload.buf.op
    → IsRetiring entry cpu
    → Holds cpu.reg_store m.regs
    → (cpu' : Cpu) × (rob_commit id entry cpu ≡ done cpu')
      × Holds cpu'.reg_store (execute x m).regs
      × (fetches_at cpu'.inst_unit d.next_pc ≡ (execute x m).pc)
      × Stored entry.payload.buf.op entry.payload.buf cpu.ls_queue.queue cpu'.ls_queue.queue
unfolding life dispatched
rob_commit-execute result unit m x rs_id rob_id rob rs d id entry cpu readable e k run bytes
      dispatches yields commits retiring holds =
    let inst = inst_decode (encode x) in
    let lives = life-execute result unit m x rs_id rob_id rob rs readable e k run bytes in
    let (cpu', m', committed, retires, held, at, stored, head) =
      rob_commit-retired id entry d.next_pc cpu m commits retiring holds in
    let alike =
      worked-Alike (inst_type inst) (arrived result d.rs_data) d.rob_data entry.payload.buf
        d.next_pc m (execute x m) m' yields (rw dispatches at lives) retires in
    (cpu', committed, rw (sym alike.0) held, at ∙ alike.1, stored)
